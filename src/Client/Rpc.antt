-- ===== src/Client/Rpc.antt =====
-- One consensus RPC endpoint during one operation of the client: what it answers, what the clock
-- reads, and whether the timeout around it elapsed first. Endpoints, clock and timers are outside
-- the source, so these are parameters. Also the errors of the client.
use sp1_helios.Prelude.{ℕ, List, Bool, Result, err, Text, if◌then◌else◌}
use sp1_helios.Types.{B256}
use sp1_helios.Helios.{Spec}

pub record Endpoint (s : Spec) : Type 0 where
  pub get_finality_update : Result Text s.FinalityUpdate
  pub get_updates : ℕ → ℕ → Result Text (List s.Update)
  pub get_bootstrap : B256 → Result Text s.Bootstrap
  -- the Unix time at the n-th reading of the clock
  pub now : ℕ → ℕ
  pub timed_out : Bool

-- The endpoints of an operation that ends with a new store, and the Unix times in nanoseconds at which
-- the ages of its finalized and its optimistic header are taken for the logs.
pub record Endpoints (s : Spec) : Type 0 where
  pub each : List (Endpoint s)
  pub finality_logged : ℕ
  pub optimistic_logged : ℕ

pub data ClientError : Type 0 where
  rpc_error : Text → ClientError
  rpc_timed_out : ClientError
  verify_error : Text → ClientError
  checkpoint_too_old : ClientError
  all_rpcs_failed : ClientError
  no_rpcs : ClientError
  head_did_not_advance : ℕ → ℕ → ClientError
  no_payload : ClientError
  age_panicked : ClientError

-- `tokio::time::timeout` round one endpoint's work.
abbrev pub timeout {ℓ} :
    {s : Spec} {A : Type ℓ} → Endpoint s → Result ClientError A → Result ClientError A
timeout e work = if e.timed_out then err rpc_timed_out else work
