-- ===== src/Store/Keeps.antt =====
-- Which keys the store's calls leave as they were in a view of the server, whatever the call returns.
use sp1_helios.Prelude.{
  codes, ℕ, zero, suc, ◌≡◌, refl, ◌∙◌, subst, List, [], ◌∷◌, ◌++◌, false, Result, ok, err, Text,
  text_eq, text_eq_refl, eq_of_text_eq, arith, All, All-map, Bool-cases, Result-cases, inl, inr,
  ◌==◌,
}
use sp1_helios.Types.{ProofId, ProofRequestStatus, ProofServiceError}
use sp1_helios.Redis.{Platform, Json, Write, set}
use sp1_helios.Redis.Local.{Local, Other, target}
use sp1_helios.Action.{Action, World, query, pure, raise, lift, ◌>>=◌}
use sp1_helios.Store.{
  RedisStore, State, proof_state_key, finalized_header_key, global_lock_key,
  proof_generation_lock_key, read_json_value, get_proof_state, read_finalized_header,
  set_proof_state, state_writes, update_finalized_header_and_proof_states, fetch_matching,
  proof_state_keys, scan_loop, find_requests_by_status, acquire_global_lock, release_global_lock,
  extend_proof_generation_lock,
}

-- The action leaves the keys of `K` in the view, and the tasks.
pub record Keeps {p : Platform} {B : Type 0} (view : p.redis.Server → Text → B) (K : Text → Type 0)
    {A : Type 0} (m : Action p A) : Type 0 where
  pub keys : (w : World p) (j : Text) → K j → view (m w).1.server j ≡ view w.server j
  pub tasks : (w : World p) → (m w).1.spawned ≡ w.spawned

-- No key of `K` is this one.
abbrev pub Spares : (Text → Type 0) → Text → Type 0
Spares K k = (j : Text) → K j → Other j k

pub text_eq_swap : (s t : Text) → text_eq s t ≡ false → text_eq t s ≡ false
text_eq_swap s t h = elim (Bool-cases (text_eq t s)) [
  | inl e ↦
      let same : t ≡ s = eq_of_text_eq t s e in
      absurd (ground (arith, text_eq_refl s, subst (λ u. text_eq s u ≡ false) same h))
  | inr e ↦ e
]

module _ {p : Platform} {B : Type 0} {view : p.redis.Server → Text → B} {K : Text → Type 0}
    {A : Type 0} where
  pub Keeps-pure : (a : A) → Keeps {p = p} view K (pure a)
  unfolding pure
  Keeps-pure a = record { keys = λ w j k. refl; tasks = λ w. refl }

  Keeps-raise : (e : ProofServiceError) → Keeps {p = p} view K {A = A} (raise e)
  unfolding raise
  Keeps-raise e = record { keys = λ w j k. refl; tasks = λ w. refl }

  Keeps-lift : (x : Result ProofServiceError A) → Keeps {p = p} view K (lift x)
  unfolding lift
  Keeps-lift x = record { keys = λ w j k. refl; tasks = λ w. refl }

  Keeps-query :
      (command : p.redis.Server → Result Text A × p.redis.Server)
      → ((s : p.redis.Server) (j : Text) → K j → view (command s).1 j ≡ view s j)
      → Keeps {p = p} view K (query command)
  unfolding query
  Keeps-query command same = record { keys = λ w j k. same w.server j k; tasks = λ w. refl }

pub Keeps-bind :
    {p : Platform} {C : Type 0} {view : p.redis.Server → Text → C} {K : Text → Type 0}
    {A B : Type 0} (m : Action p A) (f : A → Action p B)
    → Keeps view K m
    → ((a : A) → Keeps view K (f a))
    → Keeps view K (m >>= f)
unfolding ◌>>=◌
Keeps-bind m f h g = record {
  keys = λ w j k. elim (Result-cases (m w).0) [
    | inl (a, q) ↦ rw q ((g a).keys (m w).1 j k ∙ h.keys w j k)
    | inr (x, q) ↦ rw q (h.keys w j k)
  ];
  tasks = λ w. elim (Result-cases (m w).0) [
    | inl (a, q) ↦ rw q ((g a).tasks (m w).1 ∙ h.tasks w)
    | inr (x, q) ↦ rw q (h.tasks w)
  ];
}

Keeps-bind_lift :
    {p : Platform} {C : Type 0} {view : p.redis.Server → Text → C} {K : Text → Type 0}
    {A B : Type 0} (x : Result ProofServiceError A) (f : A → Action p B)
    → ((a : A) → x ≡ ok a → Keeps view K (f a))
    → Keeps view K (lift x >>= f)
unfolding ◌>>=◌ lift
Keeps-bind_lift (ok a) f h = h a refl
Keeps-bind_lift (err e) f h = record { keys = λ w j k. refl; tasks = λ w. refl }

-- The writes of a result, if there are any, are to other keys.
abbrev pub Spared : (Text → Type 0) → Result ProofServiceError (List Write) → Type 0
Spared K (ok ws) = All (λ c. Spares K (target c)) ws
Spared K (err e) = Unit

pub state_writes-Spared :
    (p : Platform) (r : RedisStore) (K : Text → Type 0) (states : List (ProofId × State p))
    → ((id : ProofId) → Spares K (proof_state_key p r id))
    → Spared K (state_writes p r states)
unfolding state_writes
state_writes-Spared p r K [] other = tt
state_writes-Spared p r K ((id, state) ∷ states) other =
    let rest : Spared K (state_writes p r states) = state_writes-Spared p r K states other in
    elim (Result-cases (p.state_json.to_string state)) [
      | inr (e, q) ↦ rw (q, state_writes) tt
      | inl (json, q) ↦ elim (Result-cases (state_writes p r states)) [
        | inr (e, q') ↦ rw (q, q', state_writes) tt
        | inl (ws, q') ↦
            let rest' : Spared K (ok ws) = rw q' at rest in
            rw (q, q', state_writes) (other id, rest')
      ]
    ]

module _ {p : Platform} {B : Type 0} {view : p.redis.Server → Text → B} (l : Local p.redis view)
    (r : RedisStore) {K : Text → Type 0} where
  open p use {redis}

  Keeps-read :
      {A : Type 0} (json : Json A) (k : Text) → Keeps {p = p} view K (read_json_value p json k)
  unfolding read_json_value
  Keeps-read json k =
      Keeps-bind _ _ (Keeps-query (redis.get k) (λ s j _. l.get_keeps k s j)) (λ x. Keeps-lift _)

  pub Keeps-get_proof_state : (id : ProofId) → Keeps {p = p} view K (get_proof_state p r id)
  unfolding get_proof_state
  Keeps-get_proof_state id = Keeps-read p.state_json _

  pub Keeps-read_finalized_header : Keeps {p = p} view K (read_finalized_header p r)
  unfolding read_finalized_header
  Keeps-read_finalized_header = Keeps-read p.header_json _

  Keeps-fetch_matching :
      (status : ProofRequestStatus) (keys : List Text)
      → Keeps {p = p} view K (fetch_matching p status keys)
  unfolding fetch_matching
  Keeps-fetch_matching status [] = Keeps-pure []
  Keeps-fetch_matching status (k ∷ ks) =
      Keeps-bind _ _ (Keeps-query (redis.mget (k ∷ ks)) (λ s j _. l.mget_keeps (k ∷ ks) s j))
        (λ x. Keeps-pure _)

  Keeps-scan :
      (cursor : ℕ)
      → Keeps {p = p} view K (query (redis.scan cursor (r.key_prefix ++ codes ":state:*") 100))
  Keeps-scan cursor =
      Keeps-query (redis.scan cursor (r.key_prefix ++ codes ":state:*") 100)
        (λ s j _. l.scan_keeps cursor _ 100 s j)

  Keeps-scan_loop :
      (status : ProofRequestStatus) (fuel cursor : ℕ) (before : List (State p))
      → Keeps {p = p} view K (scan_loop p r status fuel cursor before)
  unfolding scan_loop
  Keeps-scan_loop status zero cursor before = Keeps-raise _
  Keeps-scan_loop status (suc fuel) cursor before =
      let later : (batch : ℕ × List Text) (states : List (State p))
          → Keeps {p = p} view K (scan_loop p r status fuel (batch.0) (before ++ states)) =
        λ batch states. Keeps-scan_loop status fuel (batch.0) (before ++ states) in
      Keeps-bind _ _ (Keeps-scan cursor) λ batch.
        Keeps-bind _ _ (Keeps-fetch_matching status (proof_state_keys p r (batch.1))) λ states.
          elim (Bool-cases (batch.0 == 0)) [
            | inl last ↦ rw last (Keeps-pure (before ++ states))
            | inr more ↦ rw more (later batch states)
          ]

  pub Keeps-find_requests_by_status :
      (status : ProofRequestStatus) → Keeps {p = p} view K (find_requests_by_status p r status)
  unfolding find_requests_by_status
  Keeps-find_requests_by_status status = Keeps-scan_loop status p.scan_fuel 0 []

  pub Keeps-set_proof_state :
      (id : ProofId) (state : State p)
      → Spares K (proof_state_key p r id)
      → Keeps {p = p} view K (set_proof_state p r id state)
  unfolding set_proof_state
  Keeps-set_proof_state id state other = Keeps-bind _ _ (Keeps-lift _) λ json.
      Keeps-query (redis.set_ex_value (proof_state_key p r id) json _)
        (λ s j k. l.set_ex_keeps _ json _ s j (other j k))

  pub Keeps-update :
      (header : p.spec.Header) (states : List (ProofId × State p))
      → Spares K (finalized_header_key p r)
      → ((id : ProofId) → Spares K (proof_state_key p r id))
      → Keeps {p = p} view K (update_finalized_header_and_proof_states p r header states)
  unfolding update_finalized_header_and_proof_states
  Keeps-update header states other others = Keeps-bind _ _ (Keeps-lift _) λ json.
      Keeps-bind_lift _ _ λ ws e.
        let spared : Spared K (ok ws) =
          subst (Spared K) e (state_writes-Spared p r K states others) in
        let commands = set (finalized_header_key p r) json ∷ ws in
        Keeps-query (redis.exec commands) (λ s j k.
          l.exec_keeps commands s j
            (All-map _ _ (λ c (h : Spares K (target c)). h j k) commands (other, spared)))

  pub Keeps-acquire_global_lock :
      Spares K (global_lock_key p r) → Keeps {p = p} view K (acquire_global_lock p r)
  unfolding acquire_global_lock
  Keeps-acquire_global_lock other =
      Keeps-query (redis.set_nx_px (global_lock_key p r) (codes "locked") _)
        (λ s j k. l.set_nx_keeps _ _ _ s j (other j k))

  pub Keeps-release_global_lock :
      Spares K (global_lock_key p r) → Keeps {p = p} view K (release_global_lock p r)
  unfolding release_global_lock
  Keeps-release_global_lock other = record {
    keys = λ w j k. l.del_keeps (global_lock_key p r) w.server j (other j k);
    tasks = λ w. refl;
  }

  pub Keeps-extend_proof_generation_lock :
      (id : ProofId) (ms : ℕ)
      → Spares K (proof_generation_lock_key p r id)
      → Keeps {p = p} view K (extend_proof_generation_lock p r id ms)
  unfolding extend_proof_generation_lock
  Keeps-extend_proof_generation_lock id ms other =
      Keeps-bind _ _
        (Keeps-query (redis.pexpire (proof_generation_lock_key p r id) ms)
          (λ s j k. l.pexpire_keeps _ ms s j (other j k)))
        (λ x. Keeps-pure _)
