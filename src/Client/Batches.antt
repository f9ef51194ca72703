-- ===== src/Client/Batches.antt =====
-- The requests that `get_updates_single_rpc` makes of an endpoint.
use sp1_helios.Prelude.{
  ℕ, zero, suc, ◌+◌, ◌-◌, ◌≤◌, ◌<◌, ◌≡◌, refl, ap, ◌∙◌, ◌^◌, List, [], ◌∷◌, ◌++◌, ok, arith,
  Result-cases, inl, inr, ltb, leb, Bool-cases,
}
use mathlib.Core.List.{append_assoc, append-nil}
use sp1_helios.Helios.{Core}
use sp1_helios.Client.Time.{wrapping_sub}
use sp1_helios.Client.Rpc.{Endpoint}
use sp1_helios.Client.Updates.{batch_size, fetch_batches, fetch_last, get_updates_single_rpc}

module _ (h : Core) where
  open h use {spec, Update, calc_sync_period}

  -- Requests of these sizes, one after the other from period `from` up to period `to`, each for 1
  -- to 128 periods, were answered by `updates` in this order.
  abbrev pub Fetched : Endpoint spec → ℕ → ℕ → List ℕ → List Update → Type 0
  Fetched rpc from to [] updates = (from ≡ to) × (updates ≡ [])
  Fetched rpc from to (size ∷ sizes) updates =
      (1 ≤ size)
      × (size ≤ 128)
      × (answer : List Update) × (rest : List Update) × (rpc.get_updates from size ≡ ok answer)
      × (updates ≡ answer ++ rest)
      × Fetched rpc (from + size) to sizes rest

  -- The loop: with as much fuel as there are periods left it ends at `expected`.
  fetch_batches-Fetched :
      (fuel : ℕ) (rpc : Endpoint spec) (expected next : ℕ) (us vs : List Update) (to : ℕ)
      → expected - next ≤ fuel
      → next ≤ expected
      → fetch_batches h fuel rpc expected next us ≡ ok (vs, to)
      → (sizes : List ℕ) × (new : List Update) × (vs ≡ us ++ new)
        × (to ≡ expected)
        × Fetched rpc next expected sizes new
  unfolding fetch_batches
  fetch_batches-Fetched zero rpc expected next us vs to f le e =
      ([], [], ground (arith, append-nil us), ground arith, (omega arith, refl))
  fetch_batches-Fetched (suc fuel) rpc expected next us vs to f le e =
      elim (Bool-cases (ltb next expected)) [
        | inl more ↦ elim (Result-cases (rpc.get_updates next (batch_size expected next))) [
          | inl (a, answered) ↦
              let (sizes, new, eq, end, fetched) =
                fetch_batches-Fetched fuel rpc expected (next + batch_size expected next) (us ++ a)
                  vs to (ground arith) (ground arith) (ground arith) in
              (
                batch_size expected next ∷ sizes,
                a ++ new,
                eq ∙ append_assoc us a new,
                end,
                (ground arith, omega arith, a, new, answered, refl, fetched),
              )
          | inr (x, failed) ↦ ground arith
        ]
        | inr done ↦ ([], [], ground (arith, append-nil us), ground arith, (ground arith, refl))
      ]

  -- One more request of full size.
  Fetched-last :
      (rpc : Endpoint spec) (from to : ℕ) (sizes : List ℕ) (us last : List Update)
      → Fetched rpc from to sizes us
      → rpc.get_updates to 128 ≡ ok last
      → Fetched rpc from (to + 128) (sizes ++ 128 ∷ []) (us ++ last)
  Fetched-last rpc from to [] us last (here, empty) e = (
    omega arith,
    omega arith,
    last,
    [],
    rw here e,
    rw (empty, append-nil last) refl,
    (rw here refl, refl),
  )
  Fetched-last rpc from to (size ∷ sizes) us last (pos, small, a, rest, e', split, more) e = (
    pos,
    small,
    a,
    rest ++ last,
    e',
    ap (λ (l : List Update). l ++ last) split ∙ append_assoc a rest last,
    Fetched-last rpc (from + size) to sizes rest last more e,
  )

  fetch_last-Fetched :
      (rpc : Endpoint spec) (from to : ℕ) (sizes : List ℕ) (vs us : List Update)
      → Fetched rpc from to sizes vs
      → fetch_last h rpc (vs, to) ≡ ok us
      → Fetched rpc from (to + 128) (sizes ++ 128 ∷ []) us
  unfolding fetch_last
  fetch_last-Fetched rpc from to sizes vs us f e = elim (Result-cases (rpc.get_updates to 128)) [
    | inl (last, answered) ↦
        let eq : vs ++ last ≡ us = ground arith in
        rw (← eq) (Fetched-last rpc from to sizes vs last f answered)
    | inr (x, failed) ↦ absurd (ground arith)
  ]

  -- When the finalized slot's period is not past the expected one, a success means that requests
  -- of 1 to 128 periods each, without gap or overlap, were answered from the finalized slot's
  -- period to past the expected period, by at most 128, and that the updates are all the answers in that order.
  pub get_updates_single_rpc-Fetched :
      (expected_slot finalized_slot : ℕ) (rpc : Endpoint spec) (us : List Update)
      → calc_sync_period finalized_slot ≤ calc_sync_period expected_slot
      → calc_sync_period expected_slot < 2 ^ 64
      → get_updates_single_rpc h expected_slot finalized_slot rpc ≡ ok us
      → (sizes : List ℕ) × (to : ℕ) × Fetched rpc (calc_sync_period finalized_slot) to sizes us
        × (calc_sync_period expected_slot < to)
        × (to ≤ calc_sync_period expected_slot + 128)
  unfolding get_updates_single_rpc
  get_updates_single_rpc-Fetched expected_slot finalized_slot rpc us le small e =
      elim (Bool-cases (leb 128 (wrapping_sub expected start))) [
        | inl far ↦ elim (Result-cases (fetch_batches h expected rpc expected start [])) [
          | inl ((vs, to), p) ↦
              let (sizes, new, eq, end, fetched) =
                fetch_batches-Fetched expected rpc expected start [] vs to (omega arith) le p in
              let last : fetch_last h rpc (new, expected) ≡ ok us = ground arith in
              (
                sizes ++ 128 ∷ [],
                expected + 128,
                fetch_last-Fetched rpc start expected sizes new us fetched last,
                omega arith,
                omega arith,
              )
          | inr (x, p) ↦ absurd (ground arith)
        ]
        | inr near ↦ (
          128 ∷ [],
          start + 128,
          fetch_last-Fetched rpc start start [] [] us (refl, refl) (ground arith),
          ground arith,
          omega arith,
        )
      ]
    where
      expected : ℕ
      expected = calc_sync_period expected_slot

      start : ℕ
      start = calc_sync_period finalized_slot
