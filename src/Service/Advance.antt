-- ===== src/Service/Advance.antt =====
-- `process_new_finalized_header_locked`: the stored header moves forward, and the waiting requests
-- that become final move to generating.
use sp1_helios.Prelude.{
  ℕ, ◌≤◌, ◌<◌, ◌≡◌, refl, sym, ap, ◌∙◌, ◌⊎◌, List, [], ◌∷◌, ◌++◌, map, Option, none, some, is_some,
  ◌↔◌, true, false, ◌&&◌, ok, map_err, Text, text_eq, text_eq_refl, arith, length, All, All-append,
  All-map, subst, Bool-cases, Result-cases, inl, inr, ltb,
}
use sp1_helios.Types.{ProofId, generating, waiting_for_finality, serialization_error}
use sp1_helios.Redis.{Platform, Documented, Reachable, set, written}
use sp1_helios.Action.Runs.{Values, Tasks, put, Runs, Runs-bind, Runs-lift, Runs-result, Runs-exec}
use sp1_helios.Store.{
  RedisStore, State, status_eq, proof_id, proof_state_key, proof_generation_lock_key,
  finalized_header_key, matching, proof_state_keys, update_finalized_header_and_proof_states,
}
use sp1_helios.Store.Keys.{
  header_ne_state, state_ne_header, state_ne_generation_lock, header_ne_generation_lock,
}
use sp1_helios.Store.Scan.{found}
use sp1_helios.Store.Runs.{locked}
use sp1_helios.Store.Kept.{Kept, FullScan, All-found}
use sp1_helios.Store.Keeps.{text_eq_swap}
use sp1_helios.Service.Orphans.{Started, tasks-Started, locks_hold}
use sp1_helios.Service.{is_final, now_final, should_update, with_ids}
use sp1_helios.Service.Transitions.{IsFinal, is_final_iff}
use sp1_helios.Service.Headers.{
  key_of, lock_of, locks, tasks, locks-state_key, locks-header_key, Generates, writes,
  state_writes-with_ids, written-other, written-All, now_final-generating,
}

All-everywhere : {A : Type 0} {P : A → Type 0} → ((a : A) → P a) → (xs : List A) → All P xs
All-everywhere f [] = tt
All-everywhere f (x ∷ xs) = (f x, All-everywhere f xs)

module _ (p : Platform) (r : RedisStore) where
  open p use {spec}

  Waits : State p → Type 0
  Waits s = status_eq s.status waiting_for_finality ≡ true

  matching-Waits :
      (replies : List (Option Text)) → All Waits (matching p waiting_for_finality replies)
  unfolding matching Waits
  matching-Waits [] = tt
  matching-Waits (none ∷ replies) = matching-Waits replies
  matching-Waits (some json ∷ replies) = elim (Result-cases (p.state_json.from_str json)) [
    | inr (e, q) ↦ rw (q, matching) (matching-Waits replies)
    | inl (s, q) ↦ elim (Bool-cases (status_eq s.status waiting_for_finality)) [
      | inl same ↦ rw (q, matching, same) (same, matching-Waits replies)
      | inr other ↦ rw (q, matching, other) (matching-Waits replies)
    ]
  ]

  found-Waits :
      (v : Values) (pages : List (List Text)) → All Waits (found p r waiting_for_finality v pages)
  found-Waits v [] = tt
  found-Waits v (keys ∷ pages) =
      All-append Waits (matching p waiting_for_finality (map v (proof_state_keys p r keys))) _
        (matching-Waits _) (found-Waits v pages)

  abbrev moved_state : State p → State p
  moved_state s = record s { status = generating }

  -- From the states that are moved back to the waiting ones that are final.
  waiting_of_moved :
      (block slot : ℕ) (P : State p → Type 0) (ss : List (State p))
      → All Waits ss
      → All P (now_final p r block slot ss)
      → All (λ s. IsFinal p r block slot s.request → P (moved_state s)) ss
  unfolding now_final Waits
  waiting_of_moved block slot P [] w h = tt
  waiting_of_moved block slot P (s ∷ ss) w h =
      elim (Bool-cases (is_final p r block slot s.request)) [
        | inl moved ↦
            let h' : All P (moved_state s ∷ now_final p r block slot ss) =
              rw (w.0, moved, now_final) at h in
            (λ f. h'.0, waiting_of_moved block slot P ss w.1 h'.1)
        | inr stays ↦
            let h' : All P (now_final p r block slot ss) = rw (w.0, stays, now_final) at h in
            (
              λ f. absurd (ground (arith, (is_final_iff p r block slot s.request).1 f)),
              waiting_of_moved block slot P ss w.1 h',
            )
      ]

  moved_of_waiting :
      (block slot : ℕ) (P : State p → Type 0) (ss : List (State p))
      → All (λ s. IsFinal p r block slot s.request → P (moved_state s)) ss
      → All P (now_final p r block slot ss)
  unfolding now_final
  moved_of_waiting block slot P [] h = tt
  moved_of_waiting block slot P (s ∷ ss) h =
      elim (Bool-cases
        (status_eq s.status waiting_for_finality && is_final p r block slot s.request)) [
          | inl moved ↦ rw moved (
            h.0 ((is_final_iff p r block slot s.request).0 (ground arith)),
            moved_of_waiting block slot P ss h.1,
          )
          | inr stays ↦ rw stays (moved_of_waiting block slot P ss h.1)
        ]

  -- A waiting state that the store has, and that the block and the slot make final.
  pub record BecomesFinal (block slot : ℕ) (v : Values) (s : State p) : Type 0 where
    pub kept : Kept p r waiting_for_finality v s
    pub final : IsFinal p r block slot s.request

  -- Such a state with the status changed to generating.
  abbrev pub Moved : ℕ → ℕ → Values → State p → Type 0
  Moved block slot v s' =
      (s : State p) × BecomesFinal block slot v s × (record s { status = generating } ≡ s')

  all-Moved :
      (block slot : ℕ) (v : Values) (t : Tasks) (pages : List (List Text))
      → FullScan p r v t pages
      → (P : State p → Type 0)
      → ((s : State p) → Moved block slot v s → P s)
        ↔ All P (now_final p r block slot (found p r waiting_for_finality v pages))
  all-Moved block slot v t pages scan P =
      let waiting = found p r waiting_for_finality v pages in
      let all =
        All-found p r (λ s. IsFinal p r block slot s.request → P (moved_state s))
          waiting_for_finality v t pages scan in
      (
        λ f.
            moved_of_waiting block slot P waiting
              (all.0 (λ s k final. f _ (s, record { kept = k; final = final }, refl))),
        λ holds s' (s, b, e). subst P e (
            all.1 (waiting_of_moved block slot P waiting (found-Waits v pages) holds) s b.kept
              b.final),
      )

  -- What a newer header does: the header is stored; each waiting state that the store has and that
  -- it makes final has a generating state, and its lock is held; no state of another id changes;
  -- and new tasks are started for those whose lock was free.
  pub record Advances (latest : spec.Header) (block : ℕ) (json : Text) (v : Values) (t : Tasks)
      (v' : Values) (t' : Tasks) : Type 0 where
    pub header : v' (finalized_header_key p r) ≡ some json
    pub moved :
        (s : State p)
        → BecomesFinal block (spec.beacon_slot latest) v s
        → Generates p r (key_of p r s) (v' (key_of p r s)) × (is_some (v' (lock_of p r s)) ≡ true)
    pub others :
        (id : ProofId)
        → ((s : State p)
            → BecomesFinal block (spec.beacon_slot latest) v s
            → text_eq (key_of p r s) (proof_state_key p r id) ≡ false)
        → v' (proof_state_key p r id) ≡ v (proof_state_key p r id)
    pub new_tasks : Tasks
    pub appended : t' ≡ t ++ new_tasks
    pub started : Started p r (Moved block (spec.beacon_slot latest) v) v new_tasks

  -- Tasks depend on the locks only.
  tasks_same :
      (v u : Values) (ss : List (State p))
      → ((id : ProofId)
          → u (proof_generation_lock_key p r id) ≡ v (proof_generation_lock_key p r id))
      → tasks p r u ss ≡ tasks p r v ss
  tasks_same v u [] same = refl
  tasks_same v u (s ∷ ss) same =
      let rest =
        tasks_same (locked v (lock_of p r s)) (locked u (lock_of p r s)) ss
          (λ id. ground (arith, same id, same (proof_id p s.request))) in
      rw (same (proof_id p s.request), rest) refl

  pub should_update-cases :
      (stored : Option spec.Header) (latest : spec.Header)
      → ((should_update p r stored latest ≡ false)
          × ((old : spec.Header) × (stored ≡ some old)
              × (spec.beacon_slot latest ≤ spec.beacon_slot old)))
        ⊎ ((should_update p r stored latest ≡ true)
            × ((old : spec.Header)
                → stored ≡ some old
                → spec.beacon_slot old < spec.beacon_slot latest))
  unfolding should_update
  should_update-cases none latest = inr (refl, λ old e. absurd (ground arith))
  should_update-cases (some old) latest =
      elim (Bool-cases (ltb (spec.beacon_slot old) (spec.beacon_slot latest))) [
        | inl newer ↦ inr (newer, λ other e. ground arith)
        | inr older ↦ inl (older, (old, refl, ground arith))
      ]

  -- The values once the header and the states are written.
  abbrev pub saved :
      ((s : State p) → (text : Text) × (p.state_json.to_string s ≡ ok text))
      → Values
      → Text
      → List (State p)
      → Values
  saved encodes v json moved =
      written v (set (finalized_header_key p r) json ∷ writes p r encodes moved)

  saved-lock :
      (encodes : (s : State p) → (text : Text) × (p.state_json.to_string s ≡ ok text)) (v : Values)
      (json : Text) (moved : List (State p)) (id : ProofId)
      → saved encodes v json moved (proof_generation_lock_key p r id)
        ≡ v (proof_generation_lock_key p r id)
  saved-lock encodes v json moved id =
      written-other p r encodes (put v (finalized_header_key p r) json) moved
        (proof_generation_lock_key p r id)
        (All-everywhere
          (λ s. text_eq_swap _ _ (state_ne_generation_lock p r id (proof_id p s.request))) moved)
      ∙ ground (
        arith,
        text_eq_swap (proof_generation_lock_key p r id) (finalized_header_key p r)
            (header_ne_generation_lock p r id),
      )

module _ {p : Platform} (d : Documented p.redis) (a : Reachable p.redis) (r : RedisStore)
    (encodes : (s : State p) → (text : Text) × (p.state_json.to_string s ≡ ok text)) where
  open p use {spec}

  pub Runs-update :
      (latest : spec.Header) (json : Text) (moved : List (State p)) (v : Values) (t : Tasks)
      → p.header_json.to_string latest ≡ ok json
      → Runs
          (update_finalized_header_and_proof_states p r latest (with_ids p r moved))
          v
          t
          (ok tt)
          (saved p r encodes v json moved)
          t
  unfolding update_finalized_header_and_proof_states
  Runs-update latest json moved v t e =
      Runs-bind _ _ (Runs-result (ap (map_err serialization_error) e) (Runs-lift _ v t)) (
        Runs-bind _ _ (Runs-result (state_writes-with_ids p r encodes moved) (Runs-lift _ v t))
          (Runs-exec d a (set (finalized_header_key p r) json ∷ writes p r encodes moved) v t))

  pub saved-Advances :
      (digits : (b : ℕ) → length (p.to_hex b) ≡ 64) (latest : spec.Header) (block : ℕ) (json : Text)
      (pages : List (List Text)) (v : Values) (t : Tasks)
      → FullScan p r v t pages
      → let moved =
          now_final p r block (spec.beacon_slot latest) (found p r waiting_for_finality v pages) in
        Advances p r latest block json v t
          (locks p r (saved p r encodes v json moved) moved)
          (t ++ tasks p r (saved p r encodes v json moved) moved)
  saved-Advances digits latest block json pages v t scan =
      let slot = spec.beacon_slot latest in
      let moved = now_final p r block slot (found p r waiting_for_finality v pages) in
      let v1 = put v (finalized_header_key p r) json in
      let all = all-Moved p r block slot v t pages scan in
      record {
        header =
            locks-header_key p r (saved p r encodes v json moved) moved
            ∙ written-other p r encodes v1 moved (finalized_header_key p r)
                (All-everywhere (λ s. state_ne_header p r digits _) moved)
            ∙ ground (arith, text_eq_refl (finalized_header_key p r));
        moved = λ s b. (
          (all (λ s.
                Generates p r (key_of p r s)
                  (locks p r (saved p r encodes v json moved) moved (key_of p r s)))).1
              (All-map _ _ (locks-key moved) moved (
                written-All p r encodes v1 moved
                  (now_final-generating p r block slot (found p r waiting_for_finality v pages))))
              _ (s, b, refl),
          (all (λ s.
                is_some (locks p r (saved p r encodes v json moved) moved (lock_of p r s))
                ≡ true)).1
              (locks_hold p r (saved p r encodes v json moved) moved) _ (s, b, refl),
        );
        others = λ id h.
            locks-state_key p r (saved p r encodes v json moved) moved id
            ∙ written-other p r encodes v1 moved (proof_state_key p r id) (
                (all (λ s. text_eq (key_of p r s) (proof_state_key p r id) ≡ false)).0
                  (λ s' (s, b, e).
                    subst (λ (x : State p). text_eq (key_of p r x) (proof_state_key p r id) ≡ false)
                      e (h s b)))
            ∙ ground (arith, header_ne_state p r digits id);
        new_tasks = tasks p r v moved;
        appended =
            ap (λ ts. t ++ ts)
              (tasks_same p r v (saved p r encodes v json moved) moved
                (saved-lock p r encodes v json moved));
        started = tasks-Started p r (Moved p r block slot v) v moved all;
      }
    where
      locks-key :
          (moved : List (State p)) (s : State p)
          → Generates p r (key_of p r s) (saved p r encodes v json moved (key_of p r s))
          → Generates p r
              (key_of p r s)
              (locks p r (saved p r encodes v json moved) moved (key_of p r s))
      locks-key moved s g =
          subst (Generates p r (key_of p r s))
            (sym (locks-state_key p r (saved p r encodes v json moved) moved _)) g
