-- ===== src/Storage/Verify.antt =====
-- What a successful `verify_storage_slot_proofs` has established, and what `build` keeps.
use sp1_helios.Prelude.{
  ◌≡◌, refl, ◌↔◌, List, [], ◌∷◌, map, ok, Result-cases, All, arith, length, ap, inl, inr,
}
use sp1_helios.Types.{
  B256, Address, StorageSlot, ContractStorage, VerifiedStorageSlot, StorageProofItem,
  AccountProofResponse,
}
use sp1_helios.Storage.{Trie, check_slot, check_slots, verify_storage_slot_proofs, zip_slots, build}

-- What is published for a slot.
abbrev pub published : Address → StorageSlot → VerifiedStorageSlot
published address slot = record {
  key = slot.key;
  value = slot.expected_value;
  contract_address = address;
}

module _ (t : Trie) where
  -- The slot's value is proved under the contract's storage root.
  abbrev pub SlotValid : B256 → StorageSlot → Type 0
  SlotValid root slot =
      t.verify_proof root (t.key_nibbles slot.key) (t.rlp_value slot.expected_value) slot.mpt_proof
      ≡ ok tt

  -- The account is proved under the state root, and each slot under the account's storage root.
  pub record StorageValid (root : B256) (c : ContractStorage) : Type 0 where
    pub account :
        t.verify_proof root
          (t.address_nibbles c.address)
          (t.rlp_account c.expected_value)
          c.mpt_proof
        ≡ ok tt
    pub slots : All (SlotValid c.expected_value.storage_root) c.storage_slots

  pub check_slots-valid :
      (address : Address) (root : B256) (slots : List StorageSlot)
      → All (SlotValid root) slots
      → check_slots t address root slots ≡ ok (map (published address) slots)
  unfolding check_slots check_slot
  check_slots-valid address root [] h = refl
  check_slots-valid address root (slot ∷ slots) h =
      ground (arith, check_slots-valid address root slots h.1)

  pub check_slots-eq-ok :
      (address : Address) (root : B256) (slots : List StorageSlot) {v : List VerifiedStorageSlot}
      → check_slots t address root slots ≡ ok v
      → All (SlotValid root) slots
  unfolding check_slots check_slot
  check_slots-eq-ok address root [] h = tt
  check_slots-eq-ok address root (slot ∷ slots) h =
      elim (Result-cases (check_slots t address root slots)) [
        | inl (_, e) ↦ ground (arith, check_slots-eq-ok address root slots e)
        | inr (_, e) ↦ ground arith
      ]

  -- `verify_storage_slot_proofs` succeeds exactly when the account and every slot are proved, and
  -- then publishes every slot, in order, under the contract's address.
  pub verify_storage_slot_proofs_iff :
      (root : B256) (c : ContractStorage) (v : List VerifiedStorageSlot)
      → (verify_storage_slot_proofs t root c ≡ ok v)
        ↔ (StorageValid root c × (v ≡ map (published c.address) c.storage_slots))
  unfolding verify_storage_slot_proofs
  verify_storage_slot_proofs_iff root c v = (
    (λ h.
        elim (Result-cases
          (check_slots t c.address c.expected_value.storage_root c.storage_slots)) [
            | inl (_, e) ↦
                let valid : All (SlotValid c.expected_value.storage_root) c.storage_slots =
                  check_slots-eq-ok c.address c.expected_value.storage_root c.storage_slots e in
                (
                  record { account = ground arith; slots = valid },
                  ground (
                    arith,
                    check_slots-valid c.address c.expected_value.storage_root c.storage_slots valid,
                  ),
                )
            | inr (_, e) ↦ ground arith
          ]),
    (λ h. ground (
      arith,
      h.0.account,
      check_slots-valid c.address c.expected_value.storage_root c.storage_slots h.0.slots,
    )),
  )

-- `build` fails exactly on a length mismatch.
pub build_lengths :
    (keys : List B256) (r : AccountProofResponse) (c : ContractStorage)
    → build keys r ≡ ok c
    → length r.storage_proof ≡ length keys
unfolding build
build_lengths keys r c h = ground arith

zip_slots-keys :
    (keys : List B256) (items : List StorageProofItem)
    → length items ≡ length keys
    → map (λ (s : StorageSlot). s.key) (zip_slots keys items) ≡ keys
unfolding zip_slots
zip_slots-keys [] [] h = refl
zip_slots-keys [] (i ∷ is) h = refl
zip_slots-keys (k ∷ ks) [] h = absurd (omega arith)
zip_slots-keys (k ∷ ks) (i ∷ is) h = ap (◌∷◌ k) (zip_slots-keys ks is (omega arith))

-- No requested key is lost, made up or moved.
pub build-keys :
    (keys : List B256) (r : AccountProofResponse) (c : ContractStorage)
    → build keys r ≡ ok c
    → map (λ (s : StorageSlot). s.key) c.storage_slots ≡ keys
unfolding build
build-keys keys r c h = ground (arith, zip_slots-keys keys r.storage_proof)
