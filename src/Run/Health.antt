-- ===== src/Run/Health.antt =====
-- When the main loop goes on.
use sp1_helios.Prelude.{
  ℕ, ◌+◌, ◌*◌, ◌≤◌, ◌≡◌, ◌↔◌, ◌⊎◌, inl, inr, some, ok, err, arith, Result-cases, Option-cases,
}
use sp1_helios.Types.{ProofServiceError}
use sp1_helios.Helios.{Core}
use sp1_helios.Redis.{Platform}
use sp1_helios.Action.{World, ◌>>=◌}
use sp1_helios.Store.{RedisStore, read_finalized_header}
use sp1_helios.Client.Time.{Config, age, slot_timestamp, nanos}
use sp1_helios.Run.{check_header_health}

module _ (h : Core) (p : Platform) (r : RedisStore) (config : Config h.spec) where
  -- The header can not be read, or is stored, not of the future, and at most 1332 seconds old.
  abbrev pub Healthy : ℕ → World p → Type 0
  Healthy now w =
      ((e : ProofServiceError) × ((read_finalized_header p r w).0 ≡ err e))
      ⊎ ((header : p.spec.Header) × ((read_finalized_header p r w).0 ≡ ok (some header))
          × (slot_timestamp h config (p.spec.beacon_slot header) * nanos ≤ now)
          × (now ≤ slot_timestamp h config (p.spec.beacon_slot header) * nanos + 1332 * nanos))

  -- The health check lets the loop go on exactly when the stored header can not be read, or is
  -- stored, began no later than now, and began at most 1332 seconds (three epochs and three minutes) ago.
  pub check_header_health_iff :
      (now : ℕ) (w : World p) → ((check_header_health h p r config now w).0 ≡ ok tt) ↔ Healthy now w
  unfolding check_header_health age ◌>>=◌
  check_header_health_iff now w = elim (Result-cases (read_finalized_header p r w).0) [
    | inr (e, q) ↦ (λ s. inl (e, q), λ s. ground (arith, q))
    | inl (stored, q) ↦ elim (Option-cases stored) [
      | inl missing ↦ (
        λ s. ground (arith, q, missing),
        λ s. elim s [
          | inl (e, f) ↦ ground (arith, q)
          | inr (x, f, g, k) ↦ ground (arith, q, missing)
        ],
      )
      | inr (header, found) ↦ (
        λ s.
            inr (
              header,
              ground (arith, q, found),
              ground (arith, q, found),
              ground (arith, q, found),
            ),
        λ s. elim s [
          | inl (e, f) ↦ ground (arith, q)
          | inr (x, f, g, k) ↦ ground (arith, q, found, f, g, k)
        ],
      )
    ]
  ]
