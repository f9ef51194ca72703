-- ===== src/Run/Loop.antt =====
-- `run` of zk-api/src/proof_service.rs: the main loop, round by round.
use sp1_helios.Prelude.{
  Option, none, some, map_err, ℕ, List, [], ◌∷◌, Bool, true, false, Result, ok, err, Text,
  if◌then◌else◌,
}
use sp1_helios.Types.{B256, ProofRequest, ProofRequestState}
use sp1_helios.Helios.{Core, Spec}
use sp1_helios.Redis.{Redis, Json, Platform}
use sp1_helios.Action.{World}
use sp1_helios.Store.{RedisStore}
use sp1_helios.Service.{update_redis_state, restart_orphaned_proofs}
use sp1_helios.Client.{Client}
use sp1_helios.Client.Rpc.{Endpoints, Endpoint}
use sp1_helios.Env.{Env, StartError, Network, init_light_client}
use sp1_helios.Run.{HealthError, age_panicked, advance_light_client, check_header_health}

-- A platform whose headers are those of a light client.
pub record Host (s : Spec) : Type 1 where
  pub redis : Redis
  pub ProofOutput : Type 0
  pub header_json : Json s.Header
  pub state_json : Json (ProofRequestState ProofOutput)
  pub rlp : ProofRequest → Text
  pub keccak256 : Text → B256
  pub to_hex : B256 → Text
  pub scan_fuel : ℕ

abbrev pub platform : (s : Spec) → Host s → Platform
platform s host = record {
  spec = s;
  redis = host.redis;
  ProofOutput = host.ProofOutput;
  header_json = host.header_json;
  state_json = host.state_json;
  rlp = host.rlp;
  keccak256 = host.keccak256;
  to_hex = host.to_hex;
  scan_fuel = host.scan_fuel;
}

module _ (h : Core) (host : Host h.spec) (r : RedisStore) where
  abbrev pub host_platform : Platform
  host_platform = platform h.spec host

  -- The variables of the loop.
  pub record Driver : Type 0 where
    pub light_client : Client h
    pub should_advance_redis_state : Bool

  -- The time of the health check, and the endpoints when the client advances.
  pub record Round : Type 0 where
    pub now : ℕ
    pub rpcs : Endpoints h.spec

  -- `if should_advance_redis_state { update_redis_state(..) }`.
  unfoldable pub publish : Driver → World host_platform → Bool × World host_platform
  publish s w =
      let (res, w') =
        update_redis_state host_platform r s.light_client.store.finalized_header true w in
      if s.should_advance_redis_state
      then (elim res [ ok flag ↦ flag | err e ↦ true ], w')
      else (false, w)

  -- One round. The pickup of orphans only logs its errors.
  unfoldable pub round :
      Driver → Round → World host_platform → Result HealthError Driver × World host_platform
  unfolding publish
  round s round_of w =
      let (flag, published) = publish s w in
      let picked_up = (restart_orphaned_proofs host_platform r published).1 in
      let (verdict, checked) =
        check_header_health h host_platform r s.light_client.config round_of.now picked_up in
      elim verdict [
        | err e ↦ (err e, checked)
        | ok _ ↦ (
          elim (advance_light_client h s.light_client flag round_of.rpcs) [
            | none ↦ err age_panicked
            | some (light_client', flag') ↦
                ok (record { light_client = light_client'; should_advance_redis_state = flag' })
          ],
          checked,
        )
      ]

  -- So many rounds of the loop, or fewer if a health check ends the loop.
  unfoldable pub run :
      List Round → Driver → World host_platform → Result HealthError Driver × World host_platform
  unfolding round
  run [] s w = (ok s, w)
  run (next ∷ rounds) s w =
      let (res, w') = round s next w in elim res [ err e ↦ (err e, w') | ok s' ↦ run rounds s' w' ]

-- How `run` ends.
pub data RunError : Type 0 where
  start : StartError → RunError
  unhealthy : HealthError → RunError

module _ (h : Core) (host : Host h.spec) (r : RedisStore) (parse_b256 : Text → Option B256)
    (env : Env) (networks : ℕ → Option (Network h.spec))
    (endpoints : List Text → List (Endpoint h.spec) × Endpoints h.spec) where
  -- `run`: the light client is made and synced, the flag goes up, and the loop begins.
  unfoldable pub run_service :
      ℕ × ℕ
      → List (Round h host r)
      → World (host_platform h host r)
      → Result RunError (Driver h host r) × World (host_platform h host r)
  unfolding run
  run_service now rounds w =
      let (created, w') =
        init_light_client (host_platform h host r) r parse_b256 env h networks endpoints now w in
      elim created [
        | err e ↦ (err (start e), w')
        | ok (light_client, next_slot_time) ↦
            let (res, w'') =
              run h host r rounds
                (record { light_client = light_client; should_advance_redis_state = true }) w' in
            (map_err unhealthy res, w'')
      ]
