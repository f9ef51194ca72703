-- ===== src/Inputs/Traced.antt =====
-- What an endpoint's trace of the sync has checked, in the terms of the guest program.
use sp1_helios.Prelude.{
  ℕ, ◌+◌, ◌≡◌, List, [], ◌∷◌, none, some, Result, ok, err, map, arith, Result-cases, inl, inr, Any,
  Any-split, subst, length,
}
use sp1_helios.Helios.{Core, LightClientStore}
use sp1_helios.Program.Accepts.{Applied}
use sp1_helios.Client.Time.{Config, expected_current_slot}
use sp1_helios.Client.Rpc.{Endpoint, ClientError}
use sp1_helios.Client.Updates.{get_updates_single_rpc}
use sp1_helios.Client.Single.{
  SyncToChainTrace, Progress, apply_update, verify_updates, finish_sync, sync_to_chain_single_rpc,
}
use sp1_helios.Client.Select.{select}
use sp1_helios.Client.Advancement.{select-Selects, Selects}
use sp1_helios.Client.{select_ok}

module _ (h : Core) (config : Config h.spec) where
  open h use {spec, Update, FinalityUpdate, beacon_slot}

  -- Every reading of the endpoint's clock falls into this slot.
  abbrev pub Steady : ℕ → Endpoint spec → Type 0
  Steady slot e = (n : ℕ) → expected_current_slot h config (e.now n) ≡ slot

  -- Each endpoint's view of the store, update by update, is the program's.
  verify_updates-Applied :
      (slot n : ℕ) (e : Endpoint spec) (p : Progress h) (us : List Update) (q : Progress h)
      → Steady slot e
      → verify_updates h n config e p us ≡ ok q
      → Applied h slot config.genesis_root config.forks p.0 us q.0
  unfolding verify_updates apply_update
  verify_updates-Applied slot n e p [] q steady eq = ground arith
  verify_updates-Applied slot n e p (u ∷ us) q steady eq = (
    ground (arith, steady n),
    verify_updates-Applied slot (n + 1) e (apply_update h p u) us q steady (ground arith),
  )

  -- What a successful trace has checked.
  pub record Traced (slot : ℕ) (store : LightClientStore spec) (trace : SyncToChainTrace h)
      : Type 0 where
    pub middle : LightClientStore spec
    pub updates_valid :
        Applied h slot config.genesis_root config.forks store trace.sync_committee_updates middle
    pub finality_valid :
        h.verify_finality_update trace.finality_update slot middle config.genesis_root config.forks
        ≡ ok tt
    pub final : trace.final_store ≡ (h.apply_finality_update middle trace.finality_update).0
    pub at_slot : trace.expected_current_slot ≡ slot

  finish_sync-Traced :
      (slot : ℕ) (store : LightClientStore spec) (e : Endpoint spec) (us : List Update)
      (q : Progress h) (trace : SyncToChainTrace h)
      → Steady slot e
      → Applied h slot config.genesis_root config.forks store us q.0
      → finish_sync h config e slot us q ≡ ok trace
      → Traced slot store trace
  unfolding finish_sync
  finish_sync-Traced slot store e us q trace steady valid eq =
      elim (Result-cases e.get_finality_update) [
        | inl (u, p) ↦
            let updates : us ≡ trace.sync_committee_updates = ground arith in
            record {
              middle = q.0;
              updates_valid =
                  subst (λ l. Applied h slot config.genesis_root config.forks store l q.0) updates
                    valid;
              finality_valid = ground (arith, steady (1 + length us));
              final = ground arith;
              at_slot = ground arith;
            }
        | inr (x, p) ↦ absurd (ground arith)
      ]

  pub sync_single-Traced :
      (slot : ℕ) (store : LightClientStore spec) (e : Endpoint spec) (trace : SyncToChainTrace h)
      → Steady slot e
      → sync_to_chain_single_rpc h store config e ≡ ok trace
      → Traced slot store trace
  unfolding sync_to_chain_single_rpc
  sync_single-Traced slot store e trace steady eq =
      elim (Result-cases (get_updates_single_rpc h slot (beacon_slot store.finalized_header) e)) [
        | inl (us, p) ↦ elim (Result-cases (verify_updates h 1 config e (store, none) us)) [
          | inl (q, v) ↦
              finish_sync-Traced slot store e us q trace steady
                (verify_updates-Applied slot 1 e (store, none) us q steady v)
                (ground (arith, steady 0))
          | inr (x, v) ↦ absurd (ground (arith, steady 0))
        ]
        | inr (x, p) ↦ absurd (ground (arith, steady 0))
      ]

pub selected-Any :
    (h : Core) {E A C : Type 0} (store_of : A → LightClientStore h.spec) (f : C → Result E A)
    (xs : List C) (a : A)
    → select h.spec store_of none (map f xs) ≡ some a
    → Any (λ x. f x ≡ ok a) xs
selected-Any h store_of f xs a e =
    let best =
      subst (Selects h.spec store_of (map f xs)) e (select-Selects h.spec store_of (map f xs)) in
    Any-split f xs best.before best.after (ok a) best.split

pub select_ok-Any :
    (h : Core) {A : Type 0} (rs : List (Result ClientError A)) (a : A)
    → select_ok h rs ≡ ok a
    → Any (λ x. x ≡ ok a) rs
unfolding select_ok
select_ok-Any h [] a e = absurd (ground arith)
select_ok-Any h (r ∷ []) a e = inl e
select_ok-Any h (ok b ∷ r ∷ rs) a e = inl e
select_ok-Any h (err x ∷ r ∷ rs) a e = inr (select_ok-Any h (r ∷ rs) a e)
