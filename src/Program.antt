-- ===== src/Program.antt =====
-- program/src/main.rs: the guest program. A panic is an error value.
pub mod Accepts
pub mod Copies
pub mod FreeInput
use sp1_helios.Prelude.{
  ℕ, suc, ◌+◌, List, [], ◌∷◌, Option, none, some, Result, ok, err, ok_or, map_err, is_ok, ◌>>=◌,
  Text, ltb, if◌then◌else◌,
}
use sp1_helios.Types.{B256, Address, StorageSlot, ContractStorage, VerifiedStorageSlot}
use sp1_helios.Helios.{Core, Spec, LightClientStore}
use sp1_helios.Storage.{Trie}

-- `ProofInputs` of primitives/src/types.rs.
pub record ProofInputs (s : Spec) : Type 0 where
  pub sync_committee_updates : List s.Update
  pub finality_update : s.FinalityUpdate
  pub expected_current_slot : ℕ
  pub store : LightClientStore s
  pub genesis_root : B256
  pub forks : s.Forks
  pub contract_storage_slots : ContractStorage

-- `ProofOutputs` of primitives/src/types.rs.
pub record ProofOutputs : Type 0 where
  pub execution_state_root : B256
  pub new_header : B256
  pub next_sync_committee_hash : B256
  pub new_head : ℕ
  pub prev_header : B256
  pub prev_head : ℕ
  pub sync_committee_hash : B256
  pub start_sync_committee_hash : B256
  pub slots : List VerifiedStorageSlot

pub data Panic : Type 0 where
  bad_input : Panic
  update_invalid : ℕ → Panic
  finality_invalid : Panic
  head_not_advanced : Panic
  no_execution_payload : Panic
  account_invalid : Address → Text → Panic
  slot_invalid : B256 → Text → Panic

-- The loop body of the program's own `verify_storage_slot_proofs`.
unfoldable pub push_slot :
    (t : Trie) → Address → B256 → StorageSlot → Result Panic VerifiedStorageSlot
push_slot t address storage_root slot =
    map_err (slot_invalid slot.key) (
      t.verify_proof storage_root (t.key_nibbles slot.key) (t.rlp_value slot.expected_value)
        slot.mpt_proof)
    >>= λ _. ok (record { key = slot.key; value = slot.expected_value; contract_address = address })

unfoldable pub push_slots :
    (t : Trie) → Address → B256 → List StorageSlot → Result Panic (List VerifiedStorageSlot)
push_slots t address storage_root [] = ok []
push_slots t address storage_root (slot ∷ slots) =
    let rest = push_slots t address storage_root slots in
    push_slot t address storage_root slot >>= λ verified. rest >>= λ more. ok (verified ∷ more)

unfoldable pub verify_storage_slot_proofs :
    (t : Trie) → B256 → ContractStorage → Result Panic (List VerifiedStorageSlot)
verify_storage_slot_proofs t execution_state_root c =
    map_err (account_invalid c.address) (
      t.verify_proof execution_state_root (t.address_nibbles c.address)
        (t.rlp_account c.expected_value) c.mpt_proof)
    >>= λ _. push_slots t c.address c.expected_value.storage_root c.storage_slots

module _ (h : Core) where
  open h use {
    spec, Update, Forks, beacon_slot, beacon_root, execution, committee_root, verify_update,
    apply_update, verify_finality_update, apply_finality_update,
  }

  -- Step 1: each update is verified against the store that the ones before it left.
  unfoldable pub apply_updates :
      ℕ
      → ℕ
      → B256
      → Forks
      → LightClientStore spec
      → List Update
      → Result Panic (LightClientStore spec)
  apply_updates index slot root forks store [] = ok store
  apply_updates index slot root forks store (update ∷ updates) =
      let rest = apply_updates (index + 1) slot root forks (apply_update store update).0 updates in
      if is_ok (verify_update update slot store root forks)
      then rest
      else err (update_invalid (index + 1))

  -- The outputs that are committed, from the store before and after.
  unfoldable pub outputs_of :
      LightClientStore spec → LightClientStore spec → B256 → List VerifiedStorageSlot → ProofOutputs
  outputs_of first last state_root slots = record {
    execution_state_root = state_root;
    new_header = beacon_root last.finalized_header;
    next_sync_committee_hash = elim last.next_sync_committee [
      | none ↦ 0
      | some c ↦ committee_root c
    ];
    new_head = beacon_slot last.finalized_header;
    prev_header = beacon_root first.finalized_header;
    prev_head = beacon_slot first.finalized_header;
    sync_committee_hash = committee_root last.current_sync_committee;
    start_sync_committee_hash = committee_root first.current_sync_committee;
    slots = slots;
  }

  -- Steps 3 to 5, from the store after the finality update.
  unfoldable pub finish :
      (t : Trie)
      → LightClientStore spec
      → LightClientStore spec
      → ContractStorage
      → Result Panic ProofOutputs
  unfolding outputs_of
  finish t first last contract_storage_slots =
      if ltb (beacon_slot first.finalized_header) (beacon_slot last.finalized_header)
      then (ok_or (execution last.finalized_header) no_execution_payload >>= λ header.
          verify_storage_slot_proofs t header.state_root contract_storage_slots >>= λ slots.
          ok (outputs_of first last header.state_root slots))
      else err head_not_advanced

  -- `main` on decoded inputs.
  unfoldable pub main : (t : Trie) → ProofInputs spec → Result Panic ProofOutputs
  unfolding apply_updates finish
  main t inputs =
      let cleared = record (inputs.store) { next_sync_committee = none } in
      apply_updates 0 inputs.expected_current_slot inputs.genesis_root inputs.forks cleared
        inputs.sync_committee_updates
      >>= λ store.
          if is_ok (
            verify_finality_update inputs.finality_update inputs.expected_current_slot store
              inputs.genesis_root inputs.forks)
          then finish t cleared (apply_finality_update store inputs.finality_update).0
              inputs.contract_storage_slots
          else err finality_invalid

  -- The whole program: CBOR in, ABI out. The two codecs are parameters.
  unfoldable pub main_bytes :
      (t : Trie)
      → (Text → Option (ProofInputs spec))
      → (ProofOutputs → Text)
      → Text
      → Result Panic Text
  unfolding main
  main_bytes t from_cbor abi_encode encoded = ok_or (from_cbor encoded) bad_input >>= λ inputs.
      main t inputs >>= λ outputs. ok (abi_encode outputs)
