-- ===== src/Types.antt =====
-- zk-api/src/types.rs, the request types of zk-api/src/api.rs, and primitives/src/types.rs.
-- A `B256`, a `U256` and an `Address` stand as the number of their big-endian bytes; a `String`, a
-- `Bytes` and a `Vec<u8>` as the list of their bytes.
use sp1_helios.Prelude.{ℕ, List, Option, none, Text}

abbrev pub B256 : Type 0
B256 = ℕ

abbrev pub U256 : Type 0
U256 = ℕ

abbrev pub Address : Type 0
Address = ℕ

pub record ProofRequest : Type 0 where
  pub src_chain_contract_address : Address
  pub src_chain_storage_slots : List B256
  pub src_chain_block_number : ℕ
  pub dst_chain_contract_from_head : ℕ
  pub dst_chain_contract_from_header : B256
  pub vkey : B256

pub record ProofId : Type 0 where
  pub hash : B256

pub data ProofRequestStatus : Type 0 where
  initiated waiting_for_finality generating success errored : ProofRequestStatus

pub record ProofRequestState (ProofOutput : Type 0) : Type 0 where
  pub status : ProofRequestStatus
  pub request : ProofRequest
  pub proof_network_tx_id : Option Text
  pub proof_data : Option ProofOutput
  pub error_message : Option Text

-- `ProofRequestState::new`.
unfoldable pub new_state : {ProofOutput : Type 0} → ProofRequest → ProofRequestState ProofOutput
new_state request = record {
  status = initiated;
  request = request;
  proof_network_tx_id = none;
  proof_data = none;
  error_message = none;
}

pub record Sp1HeliosProofData : Type 0 where
  pub proof : Text
  pub public_values : Text

-- `ProofServiceError`. The payloads of the two foreign errors are their printed text.
pub data ProofServiceError : Type 0 where
  redis_error : Text → ProofServiceError
  lock_contention : ProofId → ProofServiceError
  not_found : ProofId → ProofServiceError
  serialization_error : Text → ProofServiceError
  proof_generation_failed : ProofId → Text → ProofServiceError
  bad_request : Text → ProofServiceError
  vkey_mismatch : Text → ProofServiceError
  internal : Text → ProofServiceError

-- primitives/src/types.rs
pub record StorageSlot : Type 0 where
  pub key : B256
  pub expected_value : U256
  pub mpt_proof : List Text

-- alloy_trie's account, with the fields that `ContractStorageBuilder` fills.
pub record TrieAccount : Type 0 where
  pub nonce : ℕ
  pub balance : U256
  pub storage_root : B256
  pub code_hash : B256

pub record ContractStorage : Type 0 where
  pub address : Address
  pub expected_value : TrieAccount
  pub mpt_proof : List Text
  pub storage_slots : List StorageSlot

pub record VerifiedStorageSlot : Type 0 where
  pub key : B256
  pub value : B256
  pub contract_address : Address

-- What an execution node answers to `eth_getProof` (alloy's `EIP1186AccountProofResponse`).
pub record StorageProofItem : Type 0 where
  pub value : U256
  pub proof : List Text

pub record AccountProofResponse : Type 0 where
  pub address : Address
  pub balance : U256
  pub code_hash : B256
  pub nonce : ℕ
  pub storage_hash : B256
  pub account_proof : List Text
  pub storage_proof : List StorageProofItem
