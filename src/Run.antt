-- ===== src/Run.antt =====
-- The parts of the main loop of zk-api/src/proof_service.rs: the light client's advance, and the
-- check that shuts the service down when the stored header is too old.
pub mod Health
pub mod Loop
pub mod Covered
pub mod Whole
pub mod Onward
use sp1_helios.Prelude.{
  ℕ, ◌+◌, ◌*◌, List, Option, none, some, Bool, true, false, Result, ok, err, ltb, if◌then◌else◌,
}
use sp1_helios.Types.{ProofServiceError}
use sp1_helios.Helios.{Core}
use sp1_helios.Redis.{Platform}
use sp1_helios.Action.{Action, World, pure, ◌>>=◌}
use sp1_helios.Store.{RedisStore, read_finalized_header}
use sp1_helios.Client.{Client, advance}
use sp1_helios.Client.Time.{Config, age, nanos}
use sp1_helios.Client.Rpc.{Endpoints, ClientError}

-- `MAX_FINALIZED_HEADER_AGE`: three epochs and a buffer of three minutes.
abbrev pub max_finalized_header_age_secs : ℕ
max_finalized_header_age_secs = 12 * 32 * 3 + 180

pub data HealthError : Type 0 where
  too_old : ℕ → HealthError
  no_header : HealthError
  age_panicked : HealthError

-- Whether an error of the client stands for the panic of `age`.
abbrev pub panics : ClientError → Bool
panics ClientError.age_panicked = true
panics _ = false

module _ (h : Core) where
  -- The client and `should_advance_redis_state` after a step. An error is logged; the panic of `age`
  -- is `none`.
  unfoldable pub advance_light_client :
      Client h → Bool → Endpoints h.spec → Option (Client h × Bool)
  advance_light_client light_client should_advance rpcs =
      let prev_finalized_slot = h.beacon_slot light_client.store.finalized_header in
      elim (advance h light_client rpcs) [
        | err e ↦ if panics e then none else some (light_client, should_advance)
        | ok advanced ↦ some (
          advanced,
          if ltb prev_finalized_slot (h.beacon_slot advanced.store.finalized_header)
              then true
              else should_advance,
        )
      ]

  module _ (p : Platform) (r : RedisStore) (config : Config h.spec) where
    -- The age at a time in nanoseconds; the inner `none` is the panic of `age`.
    unfoldable pub get_stored_header_age : ℕ → Action p (Option (Option ℕ))
    get_stored_header_age now = do
      stored ← read_finalized_header p r
      pure (elim stored [
        | none ↦ none
        | some header ↦ some (age h config now (p.spec.beacon_slot header))
      ])

    -- The verdict on an age. An error of Redis is not fatal.
    unfoldable pub judge :
        Result ProofServiceError (Option (Option ℕ)) → Result HealthError (Unit {0})
    judge (err e) = ok tt
    judge (ok none) = err no_header
    judge (ok (some none)) = err age_panicked
    judge (ok (some (some header_age))) =
        if ltb (max_finalized_header_age_secs * nanos) header_age
        then err (too_old header_age)
        else ok tt

    unfoldable pub check_header_health : ℕ → World p → Result HealthError (Unit {0}) × World p
    unfolding get_stored_header_age judge
    check_header_health now w =
        let (stored_age, w') = get_stored_header_age now w in (judge stored_age, w')
