-- ===== src/Service/Transitions.antt =====
-- What a request for a proof does to the stored states, under the global lock.
use sp1_helios.Prelude.{
  ◌↔◌, ◌⊎◌, ℕ, ◌≤◌, ◌<◌, ◌≡◌, ◌≢◌, refl, [], ◌∷◌, ◌++◌, Option, none, some, true, false, ok,
  is_some, Text, arith, inl, inr, if◌then◌else◌,
}
use sp1_helios.Types.{ProofRequest, ProofRequestStatus, generating, waiting_for_finality, errored}
use sp1_helios.Redis.{Platform}
use sp1_helios.Action.Runs.{Values, Tasks, put}
use sp1_helios.Store.{
  RedisStore, State, proof_id, proof_state_key, proof_generation_lock_key, status_eq,
}
use sp1_helios.Store.Runs.{locked}
use sp1_helios.Service.{is_final, needs_start}

module _ (p : Platform) (r : RedisStore) where
  open p use {spec}

  -- The request's block is finalized, and the finalized slot is past the contract's head.
  abbrev pub IsFinal : ℕ → ℕ → ProofRequest → Type 0
  IsFinal block slot request =
      (request.src_chain_block_number ≤ block) × (request.dst_chain_contract_from_head < slot)

  -- The request is unknown, or has failed.
  abbrev pub NeedsStart : Option (State p) → Type 0
  NeedsStart none = Unit
  NeedsStart (some state) = state.status ≡ errored

  -- A fresh state of the request.
  abbrev pub fresh : ProofRequest → ProofRequestStatus → State p
  fresh request status = record {
    status = status;
    request = request;
    proof_network_tx_id = none;
    proof_data = none;
    error_message = none;
  }

  -- What a request may lead to, from the state that is stored for it: the status that is answered,
  -- the values and the tasks.
  pub data Requested (block slot : ℕ) (request : ProofRequest) (stored : Option (State p))
      (v : Values) (t : Tasks) (status : ProofRequestStatus) (v' : Values) (t' : Tasks)
      : Type 0 where
    -- a request that is under way or done is left alone
    kept :
        (state : State p)
        → stored ≡ some state
        → state.status ≢ errored
        → status ≡ state.status
        → v' ≡ v
        → t' ≡ t
        → Requested block slot request stored v t status v' t'
    -- one that is not final waits
    waits :
        (text : Text)
        → NeedsStart stored
        → ¬ IsFinal block slot request
        → p.state_json.to_string (fresh request waiting_for_finality) ≡ ok text
        → status ≡ waiting_for_finality
        → v' ≡ put v (proof_state_key p r (proof_id p request)) text
        → t' ≡ t
        → Requested block slot request stored v t status v' t'
    -- one that is final is generated, by a new task only if its lock is free
    starts :
        (text : Text)
        → NeedsStart stored
        → IsFinal block slot request
        → p.state_json.to_string (fresh request generating) ≡ ok text
        → status ≡ generating
        → v'
          ≡ locked
              (put v (proof_state_key p r (proof_id p request)) text)
              (proof_generation_lock_key p r (proof_id p request))
        → t' ≡ (
            if is_some (
              put v
                (proof_state_key p r (proof_id p request))
                text
                (proof_generation_lock_key p r (proof_id p request)))
            then t
            else t ++ (request, proof_id p request) ∷ [])
        → Requested block slot request stored v t status v' t'

  pub is_final_iff :
      (block slot : ℕ) (request : ProofRequest)
      → (is_final p r block slot request ≡ true) ↔ IsFinal block slot request
  unfolding is_final
  is_final_iff block slot request = (λ e. ground arith, λ e. ground arith)

  -- Whether a stored state needs a start, as a test and as a proposition.
  pub needs_start-cases :
      (stored : Option (State p))
      → ((needs_start p r stored ≡ true) × NeedsStart stored)
        ⊎ ((needs_start p r stored ≡ false)
            × ((state : State p) × (stored ≡ some state) × (state.status ≢ errored)))
  unfolding needs_start
  needs_start-cases none = inl (refl, tt)
  needs_start-cases (some state) = status-cases state state.status refl
    where
      status-cases :
          (state : State p) (s : ProofRequestStatus)
          → state.status ≡ s
          → ((status_eq state.status errored ≡ true) × (state.status ≡ errored))
            ⊎ ((status_eq state.status errored ≡ false)
                × ((state' : State p) × (some state ≡ some state') × (state'.status ≢ errored)))
      status-cases state errored e = inl (ground arith, e)
      status-cases state generating e = inr (ground arith, (state, refl, λ q. cc))
      status-cases state waiting_for_finality e = inr (ground arith, (state, refl, λ q. cc))
      status-cases state ProofRequestStatus.initiated e = inr (ground arith, (state, refl, λ q. cc))
      status-cases state ProofRequestStatus.success e = inr (ground arith, (state, refl, λ q. cc))
