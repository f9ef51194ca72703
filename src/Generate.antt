-- ===== src/Generate.antt =====
-- `generate_and_store_proof` of zk-api/src/proof_service.rs: the task that makes one proof, with
-- the task beside it that keeps the proof's lock alive.
pub mod Outcome
pub mod Stored
pub mod Recovers
use sp1_helios.Prelude.{
  ℕ, zero, suc, ◌*◌, ◌+◌, ◌%◌, List, [], ◌∷◌, Option, none, some, Bool, true, false, Result, ok,
  err, is_ok, Text, ◌==◌, if◌then◌else◌,
}
use sp1_helios.Types.{ProofRequest, ProofId, ProofRequestState, new_state, success, errored}
use sp1_helios.Helios.{Core}
use sp1_helios.Redis.{Platform}
use sp1_helios.Action.{Action, World}
use sp1_helios.Store.{
  RedisStore, State, set_proof_state, release_proof_generation_lock, extend_proof_generation_lock,
}
use sp1_helios.Program.{ProofInputs}
use sp1_helios.Inputs.{Failure, slot_not_divisible, prover}

abbrev pub redis_timeout_secs : ℕ
redis_timeout_secs = 10

abbrev pub lock_extension_interval_secs : ℕ
lock_extension_interval_secs = 10

abbrev pub lock_extension_buffer_secs : ℕ
lock_extension_buffer_secs = redis_timeout_secs + 1

-- The proof of gathered inputs, if their finalized slot is a checkpoint. `generate_proof` is the
-- backend's.
unfoldable pub prove_inputs :
    (h : Core) {O : Type 0}
    → (ProofInputs h.spec → Result Text O)
    → Result Failure (ProofInputs h.spec)
    → Result Failure O
prove_inputs h generate_proof (err e) = err e
prove_inputs h generate_proof (ok inputs) =
    let slot = h.beacon_slot (h.finalized_header inputs.finality_update) in
    if slot % 32 == 0
    then elim (generate_proof inputs) [ ok proof ↦ ok proof | err e ↦ err (prover e) ]
    else err (slot_not_divisible slot)

module _ (p : Platform) (r : RedisStore) where
  -- The state that is stored in the end. `to_string` prints an error.
  unfoldable pub updated_proof_state :
      (Failure → Text) → ProofRequest → Result Failure p.ProofOutput → State p
  unfolding new_state
  updated_proof_state to_string request (ok proof_output) = record (new_state request) {
    status = success;
    proof_data = some proof_output;
  }
  updated_proof_state to_string request (err e) = record (new_state request) {
    status = errored;
    error_message = some (to_string e);
  }

  -- The lock task: what it does at a tick of its timer and on cancellation, and whether it goes on.
  unfoldable pub on_tick : ProofId → World p → Bool × World p
  on_tick id w =
      let (res, w') =
        extend_proof_generation_lock p r id
          ((lock_extension_interval_secs + lock_extension_buffer_secs) * 1000) w in
      elim res [
        | ok true ↦ (true, w')
        | ok false ↦ (false, w')
        | err e ↦ (false, (release_proof_generation_lock p r id w').1)
      ]

  unfoldable pub on_cancel : ProofId → Bool → World p → World p
  on_cancel id true w = (release_proof_generation_lock p r id w).1
  on_cancel id false w = w

  -- So many ticks, while the task goes on.
  unfoldable pub ticks : ProofId → ℕ → Bool × World p → Bool × World p
  ticks id zero s = s
  ticks id (suc n) (false, w) = (false, w)
  ticks id (suc n) (true, w) = ticks id n (on_tick id w)

  -- The retry loop of the final write. The list has the ticks during each 1-second sleep, and one
  -- attempt more is made than there are sleeps; the result says whether one of them succeeded.
  unfoldable pub store_final : ProofId → State p → List ℕ → Bool × World p → Bool × (Bool × World p)
  unfolding ticks
  store_final id state [] (alive, w) =
      let (res, w') = set_proof_state p r id state w in (is_ok res, (alive, w'))
  store_final id state (n ∷ sleeps) (alive, w) =
      let (res, w') = set_proof_state p r id state w in
      let again = store_final id state sleeps (ticks id n (alive, w')) in
      elim res [ ok _ ↦ (true, (alive, w')) | err e ↦ again ]

  -- The whole task: the lock task ticks `before` times while the proof is made; the final state is
  -- stored; then the guard is dropped, which cancels the lock task.
  unfoldable pub generate_and_store_proof :
      (Failure → Text)
      → ProofRequest
      → ProofId
      → Result Failure p.ProofOutput
      → ℕ
      → List ℕ
      → World p
      → Bool × World p
  unfolding store_final updated_proof_state on_cancel
  generate_and_store_proof to_string request id outcome before sleeps w =
      let (stored, (alive, w')) =
        store_final id (updated_proof_state to_string request outcome) sleeps
          (ticks id before (true, w)) in
      if stored then (true, on_cancel id alive w') else (false, w')
