-- ===== src/Store/Kept.antt =====
-- The states that a store holds with a status, and that `find_requests_by_status` finds just these,
-- on a server whose SCAN is complete.
use sp1_helios.Prelude.{
  codes, ◌≤◌, ◌≡◌, ◌↔◌, refl, sym, ap, ◌∙◌, subst, List, [], ◌∷◌, ◌++◌, map, some, true, false, ok,
  is_some, Text, text_eq, starts_with, arith, All, Any, All-Any, Any-append_iff, Any-All, Any-map,
  Any-witness, All-of_Any, Bool-cases, Option-cases, Result-cases, inl, inr, length,
}
use sp1_helios.Types.{
  ProofRequestStatus, initiated, waiting_for_finality, generating, success, errored,
}
use sp1_helios.Redis.{Platform, Documented, Reachable}
use sp1_helios.Action.Runs.{Values, Tasks, Runs}
use sp1_helios.Store.{
  RedisStore, State, status_eq, finalized_header_key, matching, proof_state_keys,
  find_requests_by_status,
}
use sp1_helios.Store.Scan.{Scanned, found, find_requests_by_status-found}

status_eq_refl : (a : ProofRequestStatus) → status_eq a a ≡ true
unfolding status_eq
status_eq_refl initiated = refl
status_eq_refl waiting_for_finality = refl
status_eq_refl generating = refl
status_eq_refl success = refl
status_eq_refl errored = refl

eq_of_status_eq : (a b : ProofRequestStatus) → status_eq a b ≡ true → a ≡ b
unfolding status_eq
eq_of_status_eq initiated b h = ground (arith, h)
eq_of_status_eq waiting_for_finality b h = ground (arith, h)
eq_of_status_eq generating b h = ground (arith, h)
eq_of_status_eq success b h = ground (arith, h)
eq_of_status_eq errored b h = ground (arith, h)

module _ (p : Platform) (r : RedisStore) where
  -- The keys of the states are among those with this prefix.
  abbrev pub InSpace : Text → Type 0
  InSpace k = starts_with k (r.key_prefix ++ codes ":state:") ≡ true

  -- Under the key there is the text of a state with the status.
  abbrev pub Holds : ProofRequestStatus → Values → State p → Text → Type 0
  Holds status v s k =
      (text : Text) × (v k ≡ some text) × (p.state_json.from_str text ≡ ok s) × (s.status ≡ status)

  -- The store has a state with the status: under a key of the states, which is not the finalized
  -- header's.
  pub record Kept (status : ProofRequestStatus) (v : Values) (s : State p) : Type 0 where
    pub key : Text
    pub in_space : InSpace key
    pub not_header : text_eq key (finalized_header_key p r) ≡ false
    pub holds : Holds status v s key

  -- A full scan, as Redis documents it where the prefix is a pattern of itself: the keys match the
  -- pattern, and every key that matches and has a value is there, once or more often.
  pub record FullScan (v : Values) (t : Tasks) (pages : List (List Text)) : Type 0 where
    pub scanned : Scanned p r v t 0 pages
    pub within_fuel : length pages ≤ p.scan_fuel
    pub matches : All (All InSpace) pages
    pub complete : (k : Text) → InSpace k → is_some (v k) ≡ true → Any (Any (λ j. j ≡ k)) pages

  matching_sound :
      (status : ProofRequestStatus) (v : Values) (s : State p) (ks : List Text)
      → Any (λ x. x ≡ s) (matching p status (map v ks))
      → Any (Holds status v s) ks
  unfolding matching
  matching_sound status v s [] h = h
  matching_sound status v s (k ∷ ks) h = elim (Option-cases (v k)) [
    | inl q ↦ inr (matching_sound status v s ks (rw (q, matching) at h))
    | inr (text, q) ↦ elim (Result-cases (p.state_json.from_str text)) [
      | inr (e, w) ↦ inr (matching_sound status v s ks (rw (q, w, matching) at h))
      | inl (x, w) ↦ elim (Bool-cases (status_eq x.status status)) [
        | inr other ↦ inr (matching_sound status v s ks (rw (q, w, other, matching) at h))
        | inl same ↦
            let h' : Any (λ y. y ≡ s) (x ∷ matching p status (map v ks)) =
              rw (q, w, same, matching) at h in
            elim h' [
              | inl e ↦ inl (
                text,
                q,
                w ∙ ap ok e,
                ap (λ (y : State p). y.status) (sym e) ∙ eq_of_status_eq _ _ same,
              )
              | inr later ↦ inr (matching_sound status v s ks later)
            ]
      ]
    ]
  ]

  matching_complete :
      (status : ProofRequestStatus) (v : Values) (s : State p) (ks : List Text)
      → Any (Holds status v s) ks
      → Any (λ x. x ≡ s) (matching p status (map v ks))
  unfolding matching
  matching_complete status v s [] h = h
  matching_complete status v s (k ∷ ks) (inl (text, q, w, e)) =
      let same : status_eq s.status status ≡ true =
        ap (λ a. status_eq a status) e ∙ status_eq_refl status in
      rw (q, w, same, matching) (inl refl)
  matching_complete status v s (k ∷ ks) (inr h) =
      let later = matching_complete status v s ks h in
      elim (Option-cases (v k)) [
        | inl q ↦ rw (q, matching) later
        | inr (text, q) ↦ elim (Result-cases (p.state_json.from_str text)) [
          | inr (e, w) ↦ rw (q, w, matching) later
          | inl (x, w) ↦ elim (Bool-cases (status_eq x.status status)) [
            | inr other ↦ rw (q, w, other, matching) later
            | inl same ↦ rw (q, w, same, matching) (inr later)
          ]
        ]
      ]

  proof_state_keys_iff :
      (P : Text → Type 0) (ks : List Text)
      → Any P (proof_state_keys p r ks)
        ↔ Any (λ k. (text_eq k (finalized_header_key p r) ≡ false) × P k) ks
  unfolding proof_state_keys
  proof_state_keys_iff P [] = (λ h. h, λ h. h)
  proof_state_keys_iff P (k ∷ ks) =
      let rest = proof_state_keys_iff P ks in
      elim (Bool-cases (text_eq k (finalized_header_key p r))) [
        | inl header ↦ rw header (
          λ h. inr (rest.0 h),
          λ h. elim h [
            | inl (other, x) ↦ absurd (ground (arith, other))
            | inr later ↦ rest.1 later
          ],
        )
        | inr other ↦ rw other (
          λ h. elim h [ inl x ↦ inl (refl, x) | inr later ↦ inr (rest.0 later) ],
          λ h. elim h [ inl (_, x) ↦ inl x | inr later ↦ inr (rest.1 later) ],
        )
      ]

  abbrev Here : ProofRequestStatus → Values → State p → Text → Type 0
  Here status v s k = (text_eq k (finalized_header_key p r) ≡ false) × Holds status v s k

  found_iff :
      (status : ProofRequestStatus) (v : Values) (s : State p) (pages : List (List Text))
      → Any (λ x. x ≡ s) (found p r status v pages) ↔ Any (Any (Here status v s)) pages
  found_iff status v s [] = (λ h. h, λ h. h)
  found_iff status v s (keys ∷ pages) =
      let rest = found_iff status v s pages in
      let ks = proof_state_keys p r keys in
      let both =
        Any-append_iff (λ x. x ≡ s) (matching p status (map v ks)) (found p r status v pages) in
      let filtered = proof_state_keys_iff (Holds status v s) keys in
      (
        λ h. elim (both.0 h) [
          | inl a ↦ inl (filtered.0 (matching_sound status v s ks a))
          | inr b ↦ inr (rest.0 b)
        ],
        λ h. both.1 (elim h [
          | inl a ↦ inl (matching_complete status v s ks (filtered.1 a))
          | inr b ↦ inr (rest.1 b)
        ]),
      )

  pub found-Kept :
      (status : ProofRequestStatus) (v : Values) (t : Tasks) (pages : List (List Text))
      → FullScan v t pages
      → (s : State p) → Any (λ x. x ≡ s) (found p r status v pages) ↔ Kept status v s
  found-Kept status v t pages scan s = (
    λ h.
        let (page, (matched, on_page)) = Any-witness _ pages (
          Any-All _ _ (λ page. All InSpace page × Any (Here status v s) page) pages
            (λ page m a. (m, a)) scan.matches ((found_iff status v s pages).0 h)) in
        let (k, (in_space, (other, holds))) = Any-witness _ page (
          Any-All _ _ (λ k. InSpace k × Here status v s k) page (λ k m a. (m, a)) matched
            on_page) in
        record { key = k; in_space = in_space; not_header = other; holds = holds },
    λ kept.
        let (text, stored, read, same) = kept.holds in
        let here : Here status v s kept.key = (kept.not_header, kept.holds) in
        (found_iff status v s pages).1 (
          Any-map _ _ pages
            (λ page on_page. Any-map _ _ page (λ k e. subst (Here status v s) (sym e) here) on_page)
            (scan.complete kept.key kept.in_space (ap is_some stored))),
  )

  -- What holds of all kept states, holds of all that are found, and the other way round.
  pub All-found :
      (P : State p → Type 0) (status : ProofRequestStatus) (v : Values) (t : Tasks)
      (pages : List (List Text))
      → FullScan v t pages
      → ((s : State p) → Kept status v s → P s) ↔ All P (found p r status v pages)
  All-found P status v t pages scan = (
    λ f.
        All-of_Any P (found p r status v pages)
          (λ s h. f s ((found-Kept status v t pages scan s).0 h)),
    λ all s kept.
        All-Any (found p r status v pages) (λ x px (e : x ≡ s). subst P e px) all
          ((found-Kept status v t pages scan s).1 kept),
  )

module _ {p : Platform} (d : Documented p.redis) (a : Reachable p.redis) (r : RedisStore) where
  -- On a documented server that answers every command and whose scan is full, and ends within the
  -- fuel: `find_requests_by_status` changes nothing and answers just the states that the store has
  -- with the status, under any key of the states but the finalized header's, whatever else there is.
  pub find_requests_by_status-Kept :
      (status : ProofRequestStatus) (pages : List (List Text)) (v : Values) (t : Tasks)
      → FullScan p r v t pages
      → (states : List (State p)) × Runs (find_requests_by_status p r status) v t (ok states) v t
        × ((s : State p) → Any (λ x. x ≡ s) states ↔ Kept p r status v s)
  find_requests_by_status-Kept status pages v t scan = (
    found p r status v pages,
    find_requests_by_status-found d a r status pages v t scan.within_fuel scan.scanned,
    found-Kept p r status v t pages scan,
  )
