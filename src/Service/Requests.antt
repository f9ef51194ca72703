-- ===== src/Service/Requests.antt =====
-- A request for a proof, under the global lock, refines a transition on the stored states.
use sp1_helios.Prelude.{
  codes, ℕ, ◌≡◌, refl, ap, [], ◌∷◌, ◌++◌, Option, some, true, Result, ok, ok_or, is_some, Text,
  arith, Bool-cases, inl, inr, if◌then◌else◌,
}
use sp1_helios.Types.{
  ProofRequest, ProofId, ProofRequestStatus, ProofServiceError, generating, waiting_for_finality,
  internal,
}
use sp1_helios.Helios.{ExecutionHeader}
use sp1_helios.Redis.{Platform, Documented, Reachable}
use sp1_helios.Action.{Action, pure, ◌>>=◌}
use sp1_helios.Action.Runs.{
  Values, Tasks, Runs, Runs-bind, Runs-attempt, Runs-lift, Runs-pure, Runs-spawn, Runs-result,
}
use sp1_helios.Store.{
  RedisStore, State, proof_id, proof_state_key, finalized_header_key, proof_generation_lock_key,
  parse_reply,
}
use sp1_helios.Store.Runs.{
  locked, Runs-get_proof_state, Runs-read_finalized_header, Runs-set_proof_state,
  Runs-acquire_proof_generation_lock,
}
use sp1_helios.Service.{
  is_final, spawn_on, spawn_if_lock_acquired, initialize_request_locked, needs_start, known_status,
  process_request_locked,
}
use sp1_helios.Service.Transitions.{
  NeedsStart, fresh, Requested, kept, waits, starts, is_final_iff, needs_start-cases,
}

module _ {p : Platform} (d : Documented p.redis) (a : Reachable p.redis) (r : RedisStore) where
  open p use {spec}

  pub Runs-spawn_if_lock_acquired :
      (request : ProofRequest) (v : Values) (t : Tasks)
      → Runs
          (spawn_if_lock_acquired p r request)
          v
          t
          (ok tt)
          (locked v (proof_generation_lock_key p r (proof_id p request)))
          (if is_some (v (proof_generation_lock_key p r (proof_id p request)))
            then t
            else t ++ (request, proof_id p request) ∷ [])
  unfolding spawn_if_lock_acquired
  Runs-spawn_if_lock_acquired request v t =
      elim (Bool-cases (is_some (v (proof_generation_lock_key p r (proof_id p request))))) [
        | inl held ↦
            Runs-bind _ _
              (Runs-attempt (Runs-acquire_proof_generation_lock d a r (proof_id p request) _ v t))
              (rw (held, spawn_on) (Runs-pure tt _ t))
        | inr free ↦
            Runs-bind _ _
              (Runs-attempt (Runs-acquire_proof_generation_lock d a r (proof_id p request) _ v t))
              (rw (free, spawn_on) (Runs-spawn request (proof_id p request) _ t))
      ]

  -- What an action on these values and tasks does, if it ends in one of the transitions.
  abbrev pub Refines :
      ℕ
      → ℕ
      → ProofRequest
      → Option (State p)
      → Values
      → Tasks
      → Action p (ProofId × ProofRequestStatus)
      → Type 0
  Refines block slot request stored v t m =
      (status : ProofRequestStatus) × (v' : Values) × (t' : Tasks) × Runs m v t
        (ok (proof_id p request, status)) v' t'
      × Requested p r block slot request stored v t status v' t'

  module _ (encodes : (s : State p) → (text : Text) × (p.state_json.to_string s ≡ ok text)) where
    Runs-initialize :
        (block slot : ℕ) (request : ProofRequest) (stored : Option (State p)) (v : Values)
        (t : Tasks)
        → NeedsStart p r stored
        → Refines block slot request stored v t (
            initialize_request_locked p r slot block request >>= λ status.
            pure (proof_id p request, status))
    unfolding initialize_request_locked
    Runs-initialize block slot request stored v t needed =
        elim (Bool-cases (is_final p r block slot request)) [
          | inl final ↦
              let (text, e) = encodes (fresh p r request generating) in
              (
                generating,
                _,
                _,
                rw (final, initialize_request_locked)
                    (Runs-bind _ _
                      (Runs-bind _ _ (Runs-set_proof_state d a r (proof_id p request) _ text v t e)
                        (Runs-bind _ _ (Runs-spawn_if_lock_acquired request _ t)
                          (Runs-pure generating _ _)))
                      (Runs-pure (proof_id p request, generating) _ _)),
                starts text needed ((is_final_iff p r block slot request).0 final) e refl refl refl,
              )
          | inr waiting ↦
              let (text, e) = encodes (fresh p r request waiting_for_finality) in
              (
                waiting_for_finality,
                _,
                _,
                rw (waiting, initialize_request_locked)
                    (Runs-bind _ _
                      (Runs-bind _ _ (Runs-set_proof_state d a r (proof_id p request) _ text v t e)
                        (Runs-pure waiting_for_finality _ _))
                      (Runs-pure (proof_id p request, waiting_for_finality) _ _)),
                waits text needed (λ f. ground (arith, (is_final_iff p r block slot request).1 f)) e
                    refl refl refl,
              )
        ]

    -- Under the global lock, on a documented server that answers every command, where every state
    -- has a text, with a header in the store that has a payload, and a state stored for
    -- the request that can be read or none, `process_request_locked` succeeds with the request's
    -- id, and does one of the transitions of `Requested`: an unknown or errored request is stored
    -- as generating, with a task if its lock was free, if it is final, and as waiting if it is not;
    -- for any other request nothing is written and its status is answered.
    pub process_request_locked-Refines :
        (request : ProofRequest) (stored : Option (State p)) (header : spec.Header)
        (payload : ExecutionHeader) (v : Values) (t : Tasks)
        → parse_reply p p.state_json (v (proof_state_key p r (proof_id p request))) ≡ ok stored
        → parse_reply p p.header_json (v (finalized_header_key p r)) ≡ ok (some header)
        → spec.execution header ≡ some payload
        → Refines payload.block_number
            (spec.beacon_slot header)
            request
            stored
            v
            t
            (process_request_locked p r request true)
    unfolding process_request_locked
    process_request_locked-Refines request stored header payload v t read current has =
        elim (needs_start-cases p r stored) [
          | inl (test, needed) ↦
              let (status, v', t', runs, requested) =
                Runs-initialize payload.block_number (spec.beacon_slot header) request stored v t
                  needed in
              (status, v', t', under_lock (rw test runs), requested)
          | inr (test, (state, e, other)) ↦ (
            state.status,
            v,
            t,
            under_lock (rw (test, e) (Runs-pure (proof_id p request, state.status) v t)),
            kept state e other refl refl refl,
          )
        ]
      where
        branch : Action p (ProofId × ProofRequestStatus)
        branch =
            if needs_start p r stored
            then (initialize_request_locked p r (spec.beacon_slot header) payload.block_number
                  request
                >>= λ status. pure (proof_id p request, status))
            else pure (proof_id p request, known_status p r stored)

        under_lock :
            {res : Result ProofServiceError (ProofId × ProofRequestStatus)} {v' : Values}
            {t' : Tasks}
            → Runs branch v t res v' t'
            → Runs (process_request_locked p r request true) v t res v' t'
        under_lock h =
            Runs-bind _ _ (Runs-result read (Runs-get_proof_state d a r (proof_id p request) v t)) (
              Runs-bind _ _ (Runs-result current (Runs-read_finalized_header d a r v t)) (
                Runs-bind _ _ (Runs-lift (ok header) v t) (
                  Runs-bind _ _
                    (Runs-result
                      (ap (λ o. ok_or o (internal (codes "Failed to get execution header."))) has)
                      (Runs-lift _ v t))
                    h)))
