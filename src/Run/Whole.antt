-- ===== src/Run/Whole.antt =====
-- The main loop from its start.
use sp1_helios.Prelude.{
  ℕ, ◌≡◌, List, Option, false, true, ok, map_err-eq-ok, Text, length, arith, Result-cases, inl, inr,
}
use sp1_helios.Types.{B256}
use sp1_helios.Helios.{Core}
use sp1_helios.Redis.{Documented, Reachable}
use sp1_helios.Action.{World}
use sp1_helios.Store.{RedisStore}
use sp1_helios.Service.Readable.{StoredFrom}
use sp1_helios.Client.Rpc.{Endpoints, Endpoint}
use sp1_helios.Env.{Env, Network, init_light_client}
use sp1_helios.Run.Loop.{Host, host_platform, Driver, Round, run, run_service, unhealthy}
use sp1_helios.Run.Covered.{run-Covered}

module _ (h : Core) (host : Host h.spec) (r : RedisStore) (d : Documented host.redis)
    (a : Reachable host.redis) (digits : (b : B256) → length (host.to_hex b) ≡ 64)
    (reads : (header : h.Header) (json : Text)
      → host.header_json.to_string header ≡ ok json
      → host.header_json.from_str json ≡ ok header) where
  -- On a documented server that answers every command, where ids print as 64 digits and serde_json
  -- reads headers back, and no other worker writes: after a start and any rounds that the loop
  -- survives, if the flag is down then the stored header can be read and is of the light client's
  -- finalized slot or a later one, whatever the server held at first.
  pub run_service-StoredFrom :
      (parse_b256 : Text → Option B256) (env : Env) (networks : ℕ → Option (Network h.spec))
      (endpoints : List Text → List (Endpoint h.spec) × Endpoints h.spec) (now : ℕ × ℕ)
      (rounds : List (Round h host r)) (w : World (host_platform h host r)) (s : Driver h host r)
      → (run_service h host r parse_b256 env networks endpoints now rounds w).0 ≡ ok s
      → s.should_advance_redis_state ≡ false
      → StoredFrom
          (host_platform h host r)
          r
          (h.beacon_slot s.light_client.store.finalized_header)
          (run_service h host r parse_b256 env networks endpoints now rounds w).1
  unfolding run_service
  run_service-StoredFrom parse_b256 env networks endpoints now rounds w s e down =
      let (created, w') =
        init_light_client (host_platform h host r) r parse_b256 env h networks endpoints now w in
      elim (Result-cases created) [
        | inr (x, q) ↦ absurd (ground (arith, e, q))
        | inl ((light_client, wait), q) ↦
            let driver : Driver h host r = record {
              light_client = light_client;
              should_advance_redis_state = true;
            } in
            let ran : (run h host r rounds driver w').0 ≡ ok s =
              map_err-eq-ok unhealthy (run h host r rounds driver w').0
                (rw (q, run_service) at e) in
            rw (q, run_service)
              (run-Covered h host r d a digits reads rounds driver w' s
                (λ up. absurd (ground arith)) ran down)
      ]
