-- ===== src/Service/Headers.antt =====
-- A new finalized header, under the global lock: what it does to the stored header, to the waiting
-- requests and to the tasks.
use sp1_helios.Prelude.{
  ℕ, ◌≡◌, refl, subst, List, [], ◌∷◌, ◌++◌, Option, some, Bool, true, false, ◌&&◌, ok, is_some,
  Text, text_eq, text_eq_refl, arith, All, Bool-cases, inl, inr, if◌then◌else◌,
}
use mathlib.Core.List.{append_assoc, append-nil}
use sp1_helios.Types.{ProofId, generating, waiting_for_finality}
use sp1_helios.Redis.{Platform, Documented, Reachable, Write, set_ex, written}
use sp1_helios.Action.Runs.{Values, Tasks, put, Runs, Runs-bind, Runs-pure}
use sp1_helios.Store.{
  RedisStore, State, status_eq, proof_id, proof_state_key, finalized_header_key,
  proof_generation_lock_key, proof_state_ttl_secs, state_writes,
}
use sp1_helios.Store.Runs.{locked}
use sp1_helios.Store.Keys.{state_ne_generation_lock, header_ne_generation_lock}
use sp1_helios.Service.{is_final, now_final, with_ids, spawn_all}
use sp1_helios.Service.Requests.{Runs-spawn_if_lock_acquired}

module _ (p : Platform) (r : RedisStore) where
  abbrev pub key_of : State p → Text
  key_of s = proof_state_key p r (proof_id p s.request)

  abbrev pub lock_of : State p → Text
  lock_of s = proof_generation_lock_key p r (proof_id p s.request)

  -- The values after the locks of the states were tried, and a task for each whose lock was free.
  abbrev pub locks : Values → List (State p) → Values
  locks v [] = v
  locks v (s ∷ ss) = locks (locked v (lock_of s)) ss

  abbrev pub tasks : Values → List (State p) → Tasks
  tasks v [] = []
  tasks v (s ∷ ss) =
      (if is_some (v (lock_of s)) then [] else (s.request, proof_id p s.request) ∷ [])
      ++ tasks (locked v (lock_of s)) ss

  pub locks-state_key :
      (v : Values) (ss : List (State p)) (id : ProofId)
      → locks v ss (proof_state_key p r id) ≡ v (proof_state_key p r id)
  locks-state_key v [] id = refl
  locks-state_key v (s ∷ ss) id = ground (
    arith,
    locks-state_key (locked v (lock_of s)) ss id,
    state_ne_generation_lock p r (proof_id p s.request) id,
  )

  pub locks-header_key :
      (v : Values) (ss : List (State p))
      → locks v ss (finalized_header_key p r) ≡ v (finalized_header_key p r)
  locks-header_key v [] = refl
  locks-header_key v (s ∷ ss) = ground (
    arith,
    locks-header_key (locked v (lock_of s)) ss,
    header_ne_generation_lock p r (proof_id p s.request),
  )

  -- The value is the text of a generating state of the key.
  pub record Generates (key : Text) (value : Option Text) : Type 0 where
    pub state : State p
    pub text : Text
    pub status : state.status ≡ generating
    pub at_key : text_eq (key_of state) key ≡ true
    pub encoded : p.state_json.to_string state ≡ ok text
    pub stored : value ≡ some text

  module _ (encodes : (s : State p) → (text : Text) × (p.state_json.to_string s ≡ ok text)) where
    abbrev pub writes : List (State p) → List Write
    writes [] = []
    writes (s ∷ ss) = set_ex (key_of s) (encodes s).0 proof_state_ttl_secs ∷ writes ss

    pub state_writes-with_ids :
        (ss : List (State p)) → state_writes p r (with_ids p r ss) ≡ ok (writes ss)
    unfolding state_writes with_ids
    state_writes-with_ids [] = refl
    state_writes-with_ids (s ∷ ss) = ground (arith, state_writes-with_ids ss, (encodes s).1)

    pub written-other :
        (v : Values) (ss : List (State p)) (key : Text)
        → All (λ s. text_eq (key_of s) key ≡ false) ss
        → written v (writes ss) key ≡ v key
    written-other v [] key h = refl
    written-other v (s ∷ ss) key h =
        ground (arith, written-other (put v (key_of s) (encodes s).0) ss key h.1, h.0)

    written-Generates :
        (v : Values) (ss : List (State p)) (key : Text)
        → All (λ s. s.status ≡ generating) ss
        → Generates key (v key)
        → Generates key (written v (writes ss) key)
    written-Generates v [] key h g = g
    written-Generates v (s ∷ ss) key h g =
        written-Generates (put v (key_of s) (encodes s).0) ss key h.1
          (elim (Bool-cases (text_eq (key_of s) key)) [
            | inl same ↦ record {
              state = s;
              text = (encodes s).0;
              status = h.0;
              at_key = same;
              encoded = (encodes s).1;
              stored = ground (arith, same);
            }
            | inr other ↦ record {
              state = g.state;
              text = g.text;
              status = g.status;
              at_key = g.at_key;
              encoded = g.encoded;
              stored = ground (arith, other, g.stored);
            }
          ])

    -- Every state that is written is there in the end, or another of its key that was written later.
    pub written-All :
        (v : Values) (ss : List (State p))
        → All (λ s. s.status ≡ generating) ss
        → All (λ s. Generates (key_of s) (written v (writes ss) (key_of s))) ss
    written-All v [] h = tt
    written-All v (s ∷ ss) h = (
      written-Generates (put v (key_of s) (encodes s).0) ss (key_of s) h.1 (record {
        state = s;
        text = (encodes s).0;
        status = h.0;
        at_key = text_eq_refl (key_of s);
        encoded = (encodes s).1;
        stored = ground (arith, text_eq_refl (key_of s));
      }),
      written-All (put v (key_of s) (encodes s).0) ss h.1,
    )

  pub now_final-generating :
      (block slot : ℕ) (ss : List (State p))
      → All (λ s. s.status ≡ generating) (now_final p r block slot ss)
  unfolding now_final
  now_final-generating block slot [] = tt
  now_final-generating block slot (s ∷ ss) =
      elim (Bool-cases
        (status_eq s.status waiting_for_finality && is_final p r block slot s.request)) [
          | inl moved ↦ rw moved (refl, now_final-generating block slot ss)
          | inr stays ↦ rw stays (now_final-generating block slot ss)
        ]

append-if :
    {A : Type 0} (b : Bool) (xs ys zs : List A)
    → (if b then xs else xs ++ ys) ++ zs ≡ xs ++ ((if b then [] else ys) ++ zs)
append-if true xs ys zs = refl
append-if false xs ys zs = append_assoc xs ys zs

module _ {p : Platform} (d : Documented p.redis) (a : Reachable p.redis) (r : RedisStore) where
  pub Runs-spawn_all :
      (ss : List (State p)) (v : Values) (t : Tasks)
      → Runs (spawn_all p r ss) v t (ok tt) (locks p r v ss) (t ++ tasks p r v ss)
  unfolding spawn_all
  Runs-spawn_all [] v t = rw (append-nil t) (Runs-pure tt v t)
  Runs-spawn_all (s ∷ ss) v t =
      subst (Runs (spawn_all p r (s ∷ ss)) v t (ok tt) (locks p r v (s ∷ ss)))
        (append-if (is_some (v (lock_of p r s))) t ((s.request, proof_id p s.request) ∷ []) _)
        (Runs-bind _ _ (Runs-spawn_if_lock_acquired d a r s.request v t)
          (Runs-spawn_all ss (locked v (lock_of p r s)) _))
