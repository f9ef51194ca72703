-- ===== src/Client/Onward.antt =====
-- The client's head never goes back.
use sp1_helios.Prelude.{
  ℕ, ◌≤◌, ◌≡◌, refl, List, [], ◌∷◌, Option, none, some, Result, ok, map, arith, Option-cases, inl,
  inr, Any-const, is_some, Bool-cases, bind-eq-ok, ok_inj, subst, sym, ap, ◌∙◌, map_err, ◌==◌,
  if◌then◌else◌,
}
use sp1_helios.Types.{B256}
use sp1_helios.Helios.{Core, LightClientStore}
use sp1_helios.Client.Time.{Config, expected_current_slot}
use sp1_helios.Client.Rpc.{Endpoints, Endpoint, ClientError, timeout, rpc_error, verify_error}
use sp1_helios.Client.Single.{
  Progress, apply_update, apply_finality_update, try_update, check_committee, advance_single_rpc,
}
use sp1_helios.Client.Select.{select}
use sp1_helios.Client.{
  Client, set_store, log_finality_update, log_optimistic_update, apply_store_update, advance,
}
use sp1_helios.Inputs.Traced.{selected-Any}

module _ (h : Core) where
  open h use {spec, Update, FinalityUpdate, beacon_slot}

  abbrev pub head : LightClientStore spec → ℕ
  head store = beacon_slot store.finalized_header

  -- What helios documents of applying an update: the finalized header is replaced only by a later
  -- one.
  pub record Grows : Type 0 where
    pub apply_update_grows :
        (s : LightClientStore spec) (u : Update) → head s ≤ head (h.apply_update s u).0
    pub apply_finality_update_grows :
        (s : LightClientStore spec) (u : FinalityUpdate)
        → head s ≤ head (h.apply_finality_update s u).0

  module _ (g : Grows) (config : Config spec) where
    try_update_grows :
        (e : Endpoint spec) (p : Progress h) (us : List Update)
        → head p.0 ≤ head (try_update h config e p us).0
    unfolding try_update apply_update
    try_update_grows e p [] = omega arith
    try_update_grows e p (u ∷ []) = ground (arith, g.apply_update_grows p.0 u)
    try_update_grows e p (u ∷ v ∷ us) = omega arith

    check_committee_grows :
        (e : Endpoint spec) (p q : Progress h)
        → check_committee h config e p ≡ ok q
        → head p.0 ≤ head q.0
    unfolding check_committee
    check_committee_grows e p q eq = elim (Bool-cases (is_some p.0.next_sync_committee)) [
      | inl known ↦ ground arith
      | inr unknown ↦
          let (us, _, made) =
            bind-eq-ok (map_err rpc_error (e.get_updates (h.calc_sync_period (head p.0)) 1))
              (λ us. ok (try_update h config e p us)) (rw (unknown, check_committee) at eq) in
          subst (λ (x : Progress h). head p.0 ≤ head x.0) (ok_inj made) (try_update_grows e p us)
    ]

    advance_single_grows :
        (store : LightClientStore spec) (e : Endpoint spec) (p : Progress h)
        → advance_single_rpc h store config e ≡ ok p
        → head store ≤ head p.0
    unfolding advance_single_rpc apply_finality_update
    advance_single_grows store e p eq =
        let (update, _, rest) = bind-eq-ok (map_err rpc_error e.get_finality_update) _ eq in
        let (_, _, last) =
          bind-eq-ok
            (map_err verify_error (
              h.verify_finality_update update (expected_current_slot h config (e.now 0)) store
                config.genesis_root config.forks))
            _ rest in
        let later = check_committee_grows e _ p last in
        omega (arith, g.apply_finality_update_grows store update, later)

  set_store-store :
      (client : Client h) (store : LightClientStore spec) (checkpoint : Option B256)
      → (set_store h client store checkpoint).store ≡ store
  unfolding set_store
  set_store-store client store none = refl
  set_store-store client store (some checkpoint) = refl

  -- A store update that does not panic leaves the new store.
  pub apply_store_update-store :
      (rpcs : Endpoints spec) (client updated : Client h) (store : LightClientStore spec)
      (checkpoint : Option B256)
      → apply_store_update h rpcs client store checkpoint ≡ ok updated
      → updated.store ≡ store
  unfolding apply_store_update
  apply_store_update-store rpcs client updated store checkpoint e =
      let (_, _, e1) =
        bind-eq-ok
          (if beacon_slot store.finalized_header == beacon_slot client.store.finalized_header
            then ok tt
            else log_finality_update h rpcs (set_store h client store checkpoint))
          _ e in
      let (_, _, e2) =
        bind-eq-ok
          (if beacon_slot store.optimistic_header == beacon_slot client.store.optimistic_header
            then ok tt
            else log_optimistic_update h rpcs (set_store h client store checkpoint))
          _ e1 in
      sym (ap (λ (c : Client h). c.store) (ok_inj e2)) ∙ set_store-store client store checkpoint

  pub advance-Onward :
      Grows
      → (client advanced : Client h) (rpcs : Endpoints spec) → advance h client rpcs ≡ ok advanced
      → head client.store ≤ head advanced.store
  unfolding advance
  advance-Onward g client advanced rpcs eq =
      elim (Option-cases (select spec (λ (p : Progress h). p.0) none (map attempt rpcs.each))) [
        | inl q ↦ absurd (ground arith)
        | inr ((store, checkpoint), q) ↦
            let same : advanced.store ≡ store =
              apply_store_update-store rpcs client advanced store checkpoint (ground arith) in
            let grown : head client.store ≤ head store =
              Any-const rpcs.each
                (λ e found.
                  advance_single_grows g client.config client.store e (store, checkpoint)
                    (ground arith))
                (selected-Any h (λ (p : Progress h). p.0) attempt rpcs.each (store, checkpoint)
                  q) in
            subst (λ (s : LightClientStore spec). head client.store ≤ head s) (sym same) grown
      ]
    where
      attempt : Endpoint spec → Result ClientError (Progress h)
      attempt e = timeout e (advance_single_rpc h client.store client.config e)
