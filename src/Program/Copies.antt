-- ===== src/Program/Copies.antt =====
-- The program's `verify_storage_slot_proofs` (program/src/main.rs) against the copy of it in
-- zk-api/src/lib.rs, which returns an error where the program panics.
use sp1_helios.Prelude.{◌≡◌, refl, List, [], ◌∷◌, map_err, arith}
use sp1_helios.Types.{B256, Address, StorageSlot, ContractStorage}
use sp1_helios.Storage.{Trie, StorageError, check_slot, check_slots}
use sp1_helios.Storage
use sp1_helios.Program.{
  Panic, account_invalid, slot_invalid, bad_input, push_slot, push_slots,
  verify_storage_slot_proofs,
}

-- The panic that stands for an error of the copy.
abbrev pub panic_of : StorageError → Panic
panic_of (StorageError.account_invalid a e) = account_invalid a e
panic_of (StorageError.slot_invalid k e) = slot_invalid k e
panic_of StorageError.length_mismatch = bad_input

module _ (t : Trie) where
  push_slots-check_slots :
      (address : Address) (root : B256) (slots : List StorageSlot)
      → push_slots t address root slots ≡ map_err panic_of (check_slots t address root slots)
  unfolding push_slots push_slot check_slots check_slot
  push_slots-check_slots address root [] = refl
  push_slots-check_slots address root (slot ∷ slots) =
      ground (arith, push_slots-check_slots address root slots)

  -- The two copies agree on every input: the same slots on success, and a panic of the program
  -- exactly where the copy returns the matching error.
  pub verify-eq-copy :
      (root : B256) (c : ContractStorage)
      → verify_storage_slot_proofs t root c
        ≡ map_err panic_of (Storage.verify_storage_slot_proofs t root c)
  unfolding verify_storage_slot_proofs Storage.verify_storage_slot_proofs
  verify-eq-copy root c =
      ground (arith, push_slots-check_slots c.address c.expected_value.storage_root c.storage_slots)
