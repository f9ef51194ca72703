-- ===== src/Storage.antt =====
-- Merkle proofs of contract storage: `verify_storage_slot_proofs` of zk-api/src/lib.rs and
-- `ContractStorageBuilder` of zk-api/src/types.rs. alloy's trie verifier, Keccak and RLP are
-- parameters.
pub mod Verify
use sp1_helios.Prelude.{ℕ, List, [], ◌∷◌, Result, ok, err, ◌>>=◌, Text, length, ◌==◌, if◌then◌else◌}
use sp1_helios.Types.{
  B256, U256, Address, StorageSlot, TrieAccount, ContractStorage, VerifiedStorageSlot,
  StorageProofItem, AccountProofResponse,
}

-- alloy: `keccak256` of an address and of a slot key, the RLP encodings of an account and of a
-- value, and `alloy_trie::proof::verify_proof root nibbles (Some value) proof`.
pub record Trie : Type 1 where
  pub Nibbles : Type 0
  pub address_nibbles : Address → Nibbles
  pub key_nibbles : B256 → Nibbles
  pub rlp_account : TrieAccount → Text
  pub rlp_value : U256 → Text
  pub verify_proof : B256 → Nibbles → Text → List Text → Result Text (Unit {0})

-- The errors of `verify_storage_slot_proofs` and of `ContractStorageBuilder::build`.
pub data StorageError : Type 0 where
  account_invalid : Address → Text → StorageError
  slot_invalid : B256 → Text → StorageError
  length_mismatch : StorageError

module _ (t : Trie) where
  open t use {address_nibbles, key_nibbles, rlp_account, rlp_value, verify_proof}

  -- The trie check of one slot, and what is pushed for it.
  unfoldable pub check_slot : Address → B256 → StorageSlot → Result StorageError VerifiedStorageSlot
  check_slot address storage_root slot =
      elim (verify_proof storage_root (key_nibbles slot.key) (rlp_value slot.expected_value)
        slot.mpt_proof) [
          | ok _ ↦
              ok
                (record { key = slot.key; value = slot.expected_value; contract_address = address })
          | err e ↦ err (slot_invalid slot.key e)
        ]

  -- The loop over the slots, which returns at the first bad proof.
  unfoldable pub check_slots :
      Address → B256 → List StorageSlot → Result StorageError (List VerifiedStorageSlot)
  check_slots address storage_root [] = ok []
  check_slots address storage_root (slot ∷ slots) =
      let rest = check_slots address storage_root slots in
      do
        verified ← check_slot address storage_root slot
        verified_slots ← rest
        ok (verified ∷ verified_slots)

  unfoldable pub verify_storage_slot_proofs :
      B256 → ContractStorage → Result StorageError (List VerifiedStorageSlot)
  verify_storage_slot_proofs execution_state_root c =
      elim (verify_proof execution_state_root (address_nibbles c.address)
        (rlp_account c.expected_value) c.mpt_proof) [
          | ok _ ↦ check_slots c.address c.expected_value.storage_root c.storage_slots
          | err e ↦ err (account_invalid c.address e)
        ]

-- `storage_slots.iter().zip(proof.storage_proof)`, which stops at the shorter list.
unfoldable pub zip_slots : List B256 → List StorageProofItem → List StorageSlot
zip_slots (key ∷ keys) (item ∷ items) =
    record { key = key; expected_value = item.value; mpt_proof = item.proof } ∷ zip_slots keys items
zip_slots _ _ = []

-- `ContractStorageBuilder::build`.
unfoldable pub build : List B256 → AccountProofResponse → Result StorageError ContractStorage
unfolding zip_slots
build storage_slots proof =
    if length proof.storage_proof == length storage_slots
    then ok (record {
      address = proof.address;
      expected_value = record {
        nonce = proof.nonce;
        balance = proof.balance;
        storage_root = proof.storage_hash;
        code_hash = proof.code_hash;
      };
      mpt_proof = proof.account_proof;
      storage_slots = zip_slots storage_slots proof.storage_proof;
    })
    else err length_mismatch
