-- ===== src/Client/Advancement.antt =====
-- Which of the endpoints' results the client takes.
use sp1_helios.Prelude.{
  ℕ, ◌+◌, ◌*◌, ◌≤◌, ◌<◌, ◌≡◌, ◌≢◌, ap, refl, ◌⊎◌, inl, inr, List, [], ◌∷◌, ◌++◌, Option, none, some,
  is_some, Result, ok, err, compare, Ordering, arith, All, if◌then◌else◌,
}
use sp1_helios.Helios.{Spec, LightClientStore}
use sp1_helios.Client.Select.{compare_committees, compare_store_advancement, better, select}

module _ (s : Spec) where
  -- The slot first, then the committee, as one number.
  abbrev rank : LightClientStore s → ℕ
  rank a = 2 * s.beacon_slot a.finalized_header + (if is_some a.next_sync_committee then 1 else 0)

  -- The comparison is that of one number for each store, so it is a total preorder: a later
  -- finalized slot wins, and between equal slots a known next sync committee does.
  compare-rank :
      (a b : LightClientStore s) → compare_store_advancement s a b ≡ compare (rank a) (rank b)
  unfolding compare_store_advancement compare_committees
  compare-rank a b = ground arith

  lt_of_gt :
      (a b : LightClientStore s) → compare_store_advancement s a b ≡ Ordering.gt → rank b < rank a
  lt_of_gt a b h = ground (arith, compare-rank a b)

  gt_of_lt :
      (a b : LightClientStore s) → rank b < rank a → compare_store_advancement s a b ≡ Ordering.gt
  gt_of_lt a b h = ground (arith, compare-rank a b)

  ne_gt_of_le :
      (a b : LightClientStore s) → rank a ≤ rank b → compare_store_advancement s a b ≢ Ordering.gt
  ne_gt_of_le a b h e = omega (arith, lt_of_gt a b e)

  module _ {A : Type 0} (store_of : A → LightClientStore s) where
    better-cases :
        (c r : A)
        → ((better s store_of (some c) r ≡ c) × (rank (store_of r) ≤ rank (store_of c)))
          ⊎ ((better s store_of (some c) r ≡ r) × (rank (store_of c) < rank (store_of r)))
    unfolding better
    better-cases c r = ground (arith, compare-rank (store_of r) (store_of c))

  module _ {E A : Type 0} (store_of : A → LightClientStore s) where
    -- `a` is strictly more advanced than the result, if that is a success.
    abbrev pub Beats : A → Result E A → Type 0
    Beats a (ok b) = compare_store_advancement s (store_of a) (store_of b) ≡ Ordering.gt
    Beats a (err e) = Unit

    -- The result is not strictly more advanced than `a`.
    abbrev pub NotBeatenBy : A → Result E A → Type 0
    NotBeatenBy a (ok b) = compare_store_advancement s (store_of b) (store_of a) ≢ Ordering.gt
    NotBeatenBy a (err e) = Unit

    -- `a` is the first of the most advanced successes.
    pub record FirstBest (results : List (Result E A)) (a : A) : Type 0 where
      pub before : List (Result E A)
      pub after : List (Result E A)
      pub split : results ≡ before ++ ok a ∷ after
      pub earlier : All (Beats a) before
      pub later : All (NotBeatenBy a) after

    abbrev pub IsFailure : Result E A → Type 0
    IsFailure (ok a) = ⊥
    IsFailure (err e) = Unit

    abbrev pub Selects : List (Result E A) → Option A → Type 0
    Selects results none = All IsFailure results
    Selects results (some a) = FirstBest results a

    first :
        (r : A) (results : List (Result E A))
        → All (NotBeatenBy r) results
        → FirstBest (ok r ∷ results) r
    first r results l = record {
      before = [];
      after = results;
      split = refl;
      earlier = tt;
      later = l;
    }

    prepend :
        (r a : A) {results : List (Result E A)}
        → FirstBest results a
        → rank (store_of r) < rank (store_of a)
        → FirstBest (ok r ∷ results) a
    prepend r a b lt = record {
      before = ok r ∷ b.before;
      after = b.after;
      split = ap (◌∷◌ (ok r)) b.split;
      earlier = (gt_of_lt _ _ lt, b.earlier);
      later = b.later;
    }

    skip :
        (e : E) {results : List (Result E A)} {a : A}
        → FirstBest results a
        → FirstBest (err e ∷ results) a
    skip e b = record {
      before = err e ∷ b.before;
      after = b.after;
      split = ap (◌∷◌ (err e)) b.split;
      earlier = (tt, b.earlier);
      later = b.later;
    }

    -- Either the candidate stays, or a strictly better result replaces it.
    Replaces : A → List (Result E A) → Type 0
    Replaces c results =
        ((select s store_of (some c) results ≡ some c) × All (NotBeatenBy c) results)
        ⊎ ((a : A) × (select s store_of (some c) results ≡ some a)
            × FirstBest results a
            × (rank (store_of c) < rank (store_of a)))

    select-Replaces : (c : A) (results : List (Result E A)) → Replaces c results
    unfolding select Replaces
    select-Replaces c [] = inl (refl, tt)
    select-Replaces c (err e ∷ results) = elim (select-Replaces c results) [
      | inl (p, l) ↦ inl (p, (tt, l))
      | inr (a, p, b, lt) ↦ inr (a, p, skip e b, lt)
    ]
    select-Replaces c (ok r ∷ results) = elim (better-cases store_of c r) [
      | inl (e, le) ↦ elim (select-Replaces c results) [
        | inl (p, l) ↦ inl (rw e p, (ne_gt_of_le _ _ le, l))
        | inr (a, p, b, lt) ↦ inr (a, rw e p, prepend r a b (omega arith), lt)
      ]
      | inr (e, lt) ↦ elim (select-Replaces r results) [
        | inl (p, l) ↦ inr (r, rw e p, first r results l, lt)
        | inr (a, p, b, lt') ↦ inr (a, rw e p, prepend r a b lt', omega arith)
      ]
    ]

    Selects-err :
        (e : E) (results : List (Result E A)) (o : Option A)
        → Selects results o
        → Selects (err e ∷ results) o
    Selects-err e results none h = (tt, h)
    Selects-err e results (some a) b = skip e b

    -- The loop keeps nothing only if every endpoint failed; otherwise it keeps the first of the
    -- most advanced successes: it is strictly more advanced than every success before it, and no
    -- success after it is strictly more advanced.
    pub select-Selects :
        (results : List (Result E A)) → Selects results (select s store_of none results)
    unfolding select better Replaces
    select-Selects [] = tt
    select-Selects (err e ∷ results) = Selects-err e results _ (select-Selects results)
    select-Selects (ok r ∷ results) = elim (select-Replaces r results) [
      | inl (p, l) ↦ rw p (first r results l)
      | inr (a, p, b, lt) ↦ rw p (prepend r a b lt)
    ]
