-- ===== src/Client/Select.antt =====
-- `compare_store_advancement` of zk-api/src/consensus_client/mod.rs, and the loop of `advance` and
-- of `sync_to_chain` that keeps the most advanced of the endpoints' results.
use sp1_helios.Prelude.{
  List, [], ◌∷◌, Option, none, some, Bool, true, false, Result, ok, err, is_some, compare, Ordering,
}
use sp1_helios.Helios.{Spec, LightClientStore}

module _ (s : Spec) where
  unfoldable pub compare_committees : Bool → Bool → Ordering
  compare_committees true false = Ordering.gt
  compare_committees false true = Ordering.lt
  compare_committees _ _ = Ordering.eq

  unfoldable pub compare_store_advancement : LightClientStore s → LightClientStore s → Ordering
  unfolding compare_committees
  compare_store_advancement a b =
      elim (compare (s.beacon_slot a.finalized_header) (s.beacon_slot b.finalized_header)) [
        | Ordering.lt ↦ Ordering.lt
        | Ordering.gt ↦ Ordering.gt
        | Ordering.eq ↦
            compare_committees (is_some a.next_sync_committee) (is_some b.next_sync_committee)
      ]

  module _ {A : Type 0} (store_of : A → LightClientStore s) where
    -- A result replaces the candidate only if it is strictly more advanced.
    unfoldable pub better : Option A → A → A
    unfolding compare_store_advancement
    better none result = result
    better (some candidate) result =
        elim (compare_store_advancement (store_of result) (store_of candidate)) [
          | Ordering.gt ↦ result
          | _ ↦ candidate
        ]

    -- Errors are logged and skipped.
    unfoldable pub select : {E : Type 0} → Option A → List (Result E A) → Option A
    select candidate [] = candidate
    select candidate (ok result ∷ results) = select (some (better candidate result)) results
    select candidate (err e ∷ results) = select candidate results
