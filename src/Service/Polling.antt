-- ===== src/Service/Polling.antt =====
-- A request, and the question for its state that follows.
use sp1_helios.Prelude.{
  ℕ, ◌≡◌, refl, sym, ap, ◌∙◌, Option, some, true, ok, Text, text_eq_refl, arith,
}
use sp1_helios.Types.{ProofRequest, ProofRequestStatus, generating, waiting_for_finality}
use sp1_helios.Helios.{ExecutionHeader}
use sp1_helios.Redis.{Platform, Documented, Reachable}
use sp1_helios.Action.{◌>>=◌}
use sp1_helios.Action.Runs.{Values, Tasks, Runs, Runs-bind, Runs-result}
use sp1_helios.Store.{
  RedisStore, State, proof_id, proof_state_key, finalized_header_key, parse_reply, get_proof_state,
}
use sp1_helios.Store.Runs.{Runs-get_proof_state}
use sp1_helios.Store.Keys.{state_ne_generation_lock}
use sp1_helios.Service.{process_request_locked}
use sp1_helios.Service.Transitions.{Requested, kept, waits, starts, fresh}
use sp1_helios.Service.Requests.{process_request_locked-Refines}

module _ (p : Platform) (r : RedisStore) where
  open p use {spec}

  -- serde_json reads the states that the request is stored with back as they were written.
  abbrev pub RoundTrip : ProofRequest → Type 0
  RoundTrip request =
      (status : ProofRequestStatus) (text : Text)
      → p.state_json.to_string (fresh p r request status) ≡ ok text
      → p.state_json.from_str text ≡ ok (fresh p r request status)

  parse_reply-eq-ok :
      (o : Option Text) (s : State p) (text : Text)
      → p.state_json.from_str text ≡ ok s
      → o ≡ some text
      → parse_reply p p.state_json o ≡ ok (some s)
  unfolding parse_reply
  parse_reply-eq-ok o s text e q = rw (q, parse_reply, e) refl

  -- After each transition the state that is stored has the status that was answered.
  pub Requested-state :
      (block slot : ℕ) (request : ProofRequest) (stored : Option (State p)) (v v' : Values)
      (t t' : Tasks) (status : ProofRequestStatus)
      → RoundTrip request
      → parse_reply p p.state_json (v (proof_state_key p r (proof_id p request))) ≡ ok stored
      → Requested p r block slot request stored v t status v' t'
      → (state : State p) × (parse_reply p p.state_json
            (v' (proof_state_key p r (proof_id p request)))
          ≡ ok (some state))
        × (state.status ≡ status)
  Requested-state block slot request stored v v' t t' status trip read
        (kept state same other e q u) =
      (
        state,
        ap
              (λ (m : Values).
                parse_reply p p.state_json (m (proof_state_key p r (proof_id p request))))
              q
            ∙ read
            ∙ ap ok same,
        sym e,
      )
  Requested-state block slot request stored v v' t t' status trip read
        (waits text needed late e q u s) =
      (
        fresh p r request waiting_for_finality,
        parse_reply-eq-ok _ _ text (trip waiting_for_finality text e)
            (ground (arith, u, text_eq_refl (proof_state_key p r (proof_id p request)))),
        sym q,
      )
  Requested-state block slot request stored v v' t t' status trip read
        (starts text needed final e q u s) =
      (
        fresh p r request generating,
        parse_reply-eq-ok _ _ text (trip generating text e) (
            ground (
              arith,
              u,
              text_eq_refl (proof_state_key p r (proof_id p request)),
              state_ne_generation_lock p r (proof_id p request) (proof_id p request),
            )),
        sym q,
      )

module _ {p : Platform} (d : Documented p.redis) (a : Reachable p.redis) (r : RedisStore) where
  open p use {spec}

  -- Under the conditions of `process_request_locked-Refines`, and if serde_json reads the states of the request
  -- back as they were written: after a request, the state that `get_proof_state` gives for the id that was
  -- answered is there and has the status that was answered, and the question changes nothing.
  pub process_request_locked-get_proof_state :
      (encodes : (s : State p) → (text : Text) × (p.state_json.to_string s ≡ ok text))
      (request : ProofRequest) (stored : Option (State p)) (header : spec.Header)
      (payload : ExecutionHeader) (v : Values) (t : Tasks)
      → RoundTrip p r request
      → parse_reply p p.state_json (v (proof_state_key p r (proof_id p request))) ≡ ok stored
      → parse_reply p p.header_json (v (finalized_header_key p r)) ≡ ok (some header)
      → spec.execution header ≡ some payload
      → (status : ProofRequestStatus) × (state : State p) × (v' : Values) × (t' : Tasks) × Runs
          (process_request_locked p r request true)
          v
          t
          (ok (proof_id p request, status))
          v'
          t'
        × Runs
            (process_request_locked p r request true >>= λ res. get_proof_state p r res.0)
            v
            t
            (ok (some state))
            v'
            t'
        × (state.status ≡ status)
  process_request_locked-get_proof_state encodes request stored header payload v t trip read current
        has =
      let (status, v', t', runs, requested) =
        process_request_locked-Refines d a r encodes request stored header payload v t read current
          has in
      let (state, found, same) =
        Requested-state p r _ _ request stored v v' t t' status trip read requested in
      (
        status,
        state,
        v',
        t',
        runs,
        Runs-bind _ _ runs
            (Runs-result found (Runs-get_proof_state d a r (proof_id p request) v' t')),
        same,
      )
