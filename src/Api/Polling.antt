-- ===== src/Api/Polling.antt =====
-- A request over HTTP, and the question for its state with the id that was answered.
use sp1_helios.Prelude.{
  ℕ, ◌≡◌, refl, sym, ap, ◌∙◌, subst, Option, some, none, Bool, true, false, not, is_some, Result,
  text_eq, if◌then◌else◌, ◌==◌, ok, Text, arith,
}
use sp1_helios.Types.{ProofServiceError, B256, ProofRequest, ProofId, ProofRequestStatus}
use sp1_helios.Helios.{ExecutionHeader}
use sp1_helios.Redis.{Platform, Documented, Reachable}
use sp1_helios.Action.{Action, ◌>>=◌}
use sp1_helios.Action.Runs.{
  Values, Tasks, Runs, Runs-bind, Runs-result, Runs-lift, Runs-pure, erase,
}
use sp1_helios.Store.{
  RedisStore, State, proof_id, proof_state_key, finalized_header_key, global_lock_key, parse_reply,
}
use sp1_helios.Store.Keys.{state_ne_global_lock, header_ne_global_lock}
use sp1_helios.Store.Runs.{Runs-get_proof_state, locked}
use sp1_helios.Service.{process_request_locked, request_proof}
use sp1_helios.Service.Lock.{Runs-with_global_lock}
use sp1_helios.Service.Requests.{process_request_locked-Refines}
use sp1_helios.Service.Polling.{RoundTrip, Requested-state}
use sp1_helios.Api.{
  Hex, ApiProofRequest, ProofRequestResponse, ProofStateResponse, from_status, try_from,
  request_proof_handler, get_proof_handler, proof_response,
}

module _ (p : Platform) (r : RedisStore) (x : Hex) where
  abbrev pub accepted : ProofRequest → ProofRequestStatus → ℕ × ProofRequestResponse
  accepted request status =
      (202, record { proof_id = p.to_hex ((proof_id p request).hash); status = from_status status })

  abbrev pub answer : ProofId → State p → ℕ × ProofStateResponse p.ProofOutput
  answer id state = (
    200,
    record {
      proof_id = p.to_hex id.hash;
      status = from_status state.status;
      update_calldata = state.proof_data;
      error_message = state.error_message;
    },
  )

  -- The request is accepted, and the question for the answered id is answered with a state of the
  -- answered status, and changes nothing.
  pub record Polled (request : ProofRequest) (vkey : B256) (api : ApiProofRequest) (v : Values)
      (t : Tasks) : Type 0 where
    pub status : ProofRequestStatus
    pub state : State p
    pub after : Values
    pub tasks : Tasks
    pub requests :
        Runs (request_proof_handler p r x vkey api) v t (ok (accepted request status)) after tasks
    pub polls :
        Runs
          (request_proof_handler p r x vkey api >>= λ res. get_proof_handler p r x (res.1.proof_id))
          v
          t
          (ok (answer (proof_id p request) state))
          after
          tasks
    pub same : state.status ≡ status

Runs-if_true :
    {p : Platform} {A : Type 0} {b : Bool} (m n : Action p A) {v v' : Values} {t t' : Tasks}
    {res : Result ProofServiceError A}
    → b ≡ true
    → Runs m v t res v' t'
    → Runs (if b then m else n) v t res v' t'
Runs-if_true m n {v} {v'} {t} {t'} {res} e h =
    subst (λ (c : Bool). Runs (if c then m else n) v t res v' t') (sym e) h

module _ {p : Platform} (d : Documented p.redis) (a : Reachable p.redis) (r : RedisStore)
    (x : Hex) where
  open p use {spec}

  Runs-get_proof_handler :
      (id : ProofId) (state : State p) (v : Values) (t : Tasks)
      → x.parse_b256 (p.to_hex id.hash) ≡ some (id.hash)
      → parse_reply p p.state_json (v (proof_state_key p r id)) ≡ ok (some state)
      → Runs (get_proof_handler p r x (p.to_hex id.hash)) v t (ok (answer p r x id state)) v t
  unfolding get_proof_handler proof_response
  Runs-get_proof_handler id state v t parses found =
      Runs-bind _ _ (Runs-result (rw parses refl) (Runs-lift _ v t))
        (Runs-bind _ _ (Runs-result found (Runs-get_proof_state d a r id v t)) (Runs-pure _ v t))

  Runs-request_proof :
      (request : ProofRequest) (result : Result ProofServiceError (ProofId × ProofRequestStatus))
      (v v' : Values) (t t' : Tasks)
      → v (global_lock_key p r) ≡ none
      → Runs
          (process_request_locked p r request true)
          (locked v (global_lock_key p r))
          t
          result
          v'
          t'
      → Runs (request_proof p r request) v t result (erase v' (global_lock_key p r)) t'
  unfolding request_proof
  Runs-request_proof request result v v' t t' free runs =
      Runs-with_global_lock d a r (process_request_locked p r request) result v v' t t' (
        subst
          (λ (o : Option Text).
            Runs (process_request_locked p r request (not (is_some o)))
              (locked v (global_lock_key p r)) t result v' t')
          (sym free) runs)

  Runs-request_proof_handler :
      (vkey : B256) (api : ApiProofRequest) (request : ProofRequest) (status : ProofRequestStatus)
      (v v' : Values) (t t' : Tasks)
      → try_from x api ≡ ok request
      → request.vkey ≡ vkey
      → Runs (request_proof p r request) v t (ok (proof_id p request, status)) v' t'
      → Runs (request_proof_handler p r x vkey api) v t (ok (accepted p r x request status)) v' t'
  unfolding request_proof_handler
  Runs-request_proof_handler vkey api request status v v' t t' formed same runs =
      let served : (request.vkey == vkey) ≡ true = ground (arith, same) in
      Runs-bind _ _ (Runs-result formed (Runs-lift (try_from x api) v t)) (
        Runs-if_true _ _ served
          (Runs-bind _ _ runs (Runs-pure (accepted p r x request status) v' t')))

  -- On a documented server that answers every command, with the global lock free, where every state
  -- has a text that serde_json reads back, ids are parsed as they are printed, the state of the
  -- request can be read or is none, and the stored header has a payload: a well-formed request for
  -- the service's key is answered by 202 with an id, and the question for that id is then answered
  -- by 200 with a state of the status that was answered, and changes nothing.
  pub request_proof_handler-get_proof_handler :
      (encodes : (s : State p) → (text : Text) × (p.state_json.to_string s ≡ ok text))
      (request : ProofRequest) (vkey : B256) (api : ApiProofRequest) (stored : Option (State p))
      (header : spec.Header) (payload : ExecutionHeader) (v : Values) (t : Tasks)
      → RoundTrip p r request
      → x.parse_b256 (p.to_hex ((proof_id p request).hash)) ≡ some ((proof_id p request).hash)
      → try_from x api ≡ ok request
      → request.vkey ≡ vkey
      → v (global_lock_key p r) ≡ none
      → parse_reply p p.state_json (v (proof_state_key p r (proof_id p request))) ≡ ok stored
      → parse_reply p p.header_json (v (finalized_header_key p r)) ≡ ok (some header)
      → spec.execution header ≡ some payload
      → Polled p r x request vkey api v t
  request_proof_handler-get_proof_handler encodes request vkey api stored header payload v t trip
        parses formed same free read current has =
      let lock = global_lock_key p r in
      let u = locked v lock in
      let elsewhere : (j : Text) → text_eq lock j ≡ false → u j ≡ v j =
        λ j other. ground (arith, other, free) in
      let read' =
        ap (parse_reply p p.state_json)
          (elsewhere _ (state_ne_global_lock p r (proof_id p request)))
        ∙ read in
      let current' =
        ap (parse_reply p p.header_json) (elsewhere _ (header_ne_global_lock p r)) ∙ current in
      let (status, v', t', runs, requested) =
        process_request_locked-Refines d a r encodes request stored header payload u t read'
          current' has in
      let (state, found, agrees) =
        Requested-state p r _ _ request stored u v' t t' status trip read' requested in
      let requests =
        Runs-request_proof_handler vkey api request status v (erase v' lock) t t' formed same
          (Runs-request_proof request _ v v' t t' free runs) in
      let kept : erase v' lock (proof_state_key p r (proof_id p request))
          ≡ v' (proof_state_key p r (proof_id p request)) =
        ground (arith, state_ne_global_lock p r (proof_id p request)) in
      record {
        status = status;
        state = state;
        after = erase v' lock;
        tasks = t';
        requests = requests;
        polls = Runs-bind _ _ requests (
            Runs-get_proof_handler (proof_id p request) state (erase v' lock) t' parses
              (ap (parse_reply p p.state_json) kept ∙ found));
        same = agrees;
      }
