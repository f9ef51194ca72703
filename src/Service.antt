-- ===== src/Service.antt =====
-- zk-api/src/proof_service.rs: `ProofService` on the Redis store.
pub mod Lock
pub mod Transitions
pub mod Requests
pub mod Polling
pub mod Headers
pub mod Advance
pub mod NewHeader
pub mod Orphans
pub mod Exclusive
pub mod Workers
pub mod Readable
pub mod Newer
pub mod Onward
use sp1_helios.Prelude.{
  codes, ℕ, zero, suc, ◌*◌, ◌+◌, ◌%◌, List, [], ◌∷◌, ◌++◌, Option, none, some, Bool, true, false,
  ◌&&◌, Result, ok, err, ok_or, Text, ltb, leb, ◌==◌, if◌then◌else◌,
}
use sp1_helios.Types.{
  B256, ProofRequest, ProofId, ProofRequestState, ProofRequestStatus, ProofServiceError, new_state,
  initiated, waiting_for_finality, generating, success, errored, internal, lock_contention,
}
use sp1_helios.Helios.{ExecutionHeader}
use sp1_helios.Redis.{Platform}
use sp1_helios.Action.{Action, World, pure, raise, lift, attempt, spawn, ◌>>=◌, ◌>>◌}
use sp1_helios.Store.{
  RedisStore, State, status_eq, proof_id, get_proof_state, read_finalized_header, set_proof_state,
  update_finalized_header_and_proof_states, find_requests_by_status, acquire_global_lock,
  release_global_lock, acquire_proof_generation_lock,
}

abbrev pub initial_proof_generation_lock_duration_ms : ℕ
initial_proof_generation_lock_duration_ms = 1000

module _ (p : Platform) (r : RedisStore) where
  open p use {spec}

  -- A request is final when its block is finalized and the chain is past the contract's head.
  unfoldable pub is_final : ℕ → ℕ → ProofRequest → Bool
  is_final finalized_block finalized_slot request =
      leb request.src_chain_block_number finalized_block
      && ltb request.dst_chain_contract_from_head finalized_slot

  -- The body of `match acquire_proof_generation_lock(..).await`: only `Ok(true)` spawns.
  unfoldable pub spawn_on : ProofRequest → Result ProofServiceError Bool → Action p (Unit {0})
  spawn_on request (ok true) = spawn request (proof_id p request)
  spawn_on request (ok false) = pure tt
  spawn_on request (err e) = pure tt

  unfoldable pub spawn_if_lock_acquired : ProofRequest → Action p (Unit {0})
  unfolding spawn_on
  spawn_if_lock_acquired request = do
    acquired ← attempt (
        acquire_proof_generation_lock p r (proof_id p request)
          initial_proof_generation_lock_duration_ms)
    spawn_on request acquired

  unfoldable pub initialize_request_locked : ℕ → ℕ → ProofRequest → Action p ProofRequestStatus
  unfolding is_final spawn_if_lock_acquired new_state
  initialize_request_locked latest_finalized_slot latest_finalized_block request =
      if is_final latest_finalized_block latest_finalized_slot request
      then (do
        set_proof_state p r (proof_id p request)
            (record (new_state {ProofOutput = p.ProofOutput} request) { status = generating })
        spawn_if_lock_acquired request
        pure generating)
      else (do
        set_proof_state p r (proof_id p request)
            (record (new_state {ProofOutput = p.ProofOutput} request) {
              status = waiting_for_finality;
            })
        pure waiting_for_finality)

  -- `match proof_request_state` under the lock: an unknown or errored request is started.
  unfoldable pub needs_start : Option (State p) → Bool
  needs_start none = true
  needs_start (some state) = status_eq state.status errored

  unfoldable pub known_status : Option (State p) → ProofRequestStatus
  known_status none = initiated
  known_status (some state) = state.status

  unfoldable pub process_held :
      ProofRequest → Option (State p) → Action p (ProofId × ProofRequestStatus)
  unfolding needs_start known_status initialize_request_locked
  process_held request state = do
    stored ← read_finalized_header p r
    finalized_header ← lift (
        ok_or stored
          (internal (codes "No finalized header available in redis. Wait and try again")))
    payload ← lift (
        ok_or (spec.execution finalized_header)
          (internal (codes "Failed to get execution header.")))
    let start =
        initialize_request_locked (spec.beacon_slot finalized_header) payload.block_number request
    if needs_start state
        then (start >>= λ status. pure (proof_id p request, status))
        else pure (proof_id p request, known_status state)

  unfoldable pub process_not_held :
      ProofRequest → Option (State p) → Action p (ProofId × ProofRequestStatus)
  process_not_held request (some state) = pure (proof_id p request, state.status)
  process_not_held request none = raise (lock_contention (proof_id p request))

  unfoldable pub process_request_locked :
      ProofRequest → Bool → Action p (ProofId × ProofRequestStatus)
  unfolding process_held process_not_held
  process_request_locked request redis_lock_acquired = do
    state ← get_proof_state p r (proof_id p request)
    if redis_lock_acquired then process_held request state else process_not_held request state

  -- The function runs whether or not the lock was acquired, and the lock is released either way.
  unfoldable pub with_global_lock : {A : Type 0} → (Bool → Action p A) → Action p A
  with_global_lock f = do
    acquired ← acquire_global_lock p r
    result ← attempt (f acquired)
    release_global_lock p r
    lift result

  unfoldable pub request_proof : ProofRequest → Action p (ProofId × ProofRequestStatus)
  unfolding with_global_lock process_request_locked
  request_proof request = with_global_lock (process_request_locked request)

  -- The loop over the waiting requests: those that the new header makes final, as generating.
  unfoldable pub now_final : ℕ → ℕ → List (State p) → List (State p)
  unfolding is_final
  now_final finalized_block finalized_slot [] = []
  now_final finalized_block finalized_slot (state ∷ states) =
      let rest = now_final finalized_block finalized_slot states in
      if status_eq state.status waiting_for_finality
        && is_final finalized_block finalized_slot state.request
      then record state { status = generating } ∷ rest
      else rest

  unfoldable pub with_ids : List (State p) → List (ProofId × State p)
  with_ids [] = []
  with_ids (state ∷ states) = (proof_id p (state.request), state) ∷ with_ids states

  unfoldable pub spawn_all : List (State p) → Action p (Unit {0})
  unfolding spawn_if_lock_acquired
  spawn_all [] = pure tt
  spawn_all (state ∷ states) =
      let rest = spawn_all states in spawn_if_lock_acquired (state.request) >>= λ _. rest

  unfoldable pub should_update : Option spec.Header → spec.Header → Bool
  should_update none latest = true
  should_update (some stored) latest = ltb (spec.beacon_slot stored) (spec.beacon_slot latest)

  unfoldable pub apply_new_header : spec.Header → Action p (Unit {0})
  unfolding now_final with_ids spawn_all
  apply_new_header latest = do
    waiting_requests ← find_requests_by_status p r waiting_for_finality
    payload ← lift (
        ok_or (spec.execution latest)
          (internal (codes "Failed to get execution header from finality update")))
    let updated = now_final payload.block_number (spec.beacon_slot latest) waiting_requests
    update_finalized_header_and_proof_states p r latest (with_ids updated)
    spawn_all updated

  unfoldable pub process_new_finalized_header_locked : spec.Header → Action p (Unit {0})
  unfolding should_update apply_new_header
  process_new_finalized_header_locked latest = do
    stored ← read_finalized_header p r
    if should_update stored latest then apply_new_header latest else pure tt

  unfoldable pub process_header_with : spec.Header → Bool → Action p Bool
  unfolding process_new_finalized_header_locked
  process_header_with latest true = do process_new_finalized_header_locked latest; pure true
  process_header_with latest false = pure false

  unfoldable pub process_new_finalized_header : spec.Header → Action p Bool
  unfolding with_global_lock process_header_with
  process_new_finalized_header latest = with_global_lock (process_header_with latest)

  unfoldable pub restart_orphaned_proofs : Action p (Unit {0})
  unfolding spawn_all
  restart_orphaned_proofs = do
    generating_requests ← find_requests_by_status p r generating
    spawn_all generating_requests

  -- `update_redis_state` of the main loop: the new value of `should_advance_redis_state`.
  unfoldable pub update_redis_state : spec.Header → Bool → Action p Bool
  unfolding process_new_finalized_header
  update_redis_state latest should_advance = do
    res ← attempt (process_new_finalized_header latest)
    pure (elim res [ ok newer ↦ if newer then false else should_advance | err e ↦ should_advance ])
