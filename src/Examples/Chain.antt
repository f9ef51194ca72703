-- ===== src/Examples/Chain.antt =====
-- A small beacon chain, trie and set of endpoints, as instances of the parameters.
use sp1_helios.Prelude.{
  ℕ, ◌+◌, ◌-◌, ◌/◌, List, [], ◌∷◌, Option, none, some, Bool, true, false, ok, err, ltb, leb, ◌==◌,
  text_eq, if◌then◌else◌,
}
use sp1_helios.Types.{B256, ContractStorage, AccountProofResponse, ProofRequest}
use sp1_helios.Helios.{Spec, Core, ExecutionHeader, LightClientStore}
use sp1_helios.Storage.{Trie}
use sp1_helios.Program.{ProofInputs, ProofOutputs}
use sp1_helios.Client.Time.{Config}
use sp1_helios.Client.Rpc.{Endpoint, Endpoints}
use sp1_helios.Execution.{Provider}
use sp1_helios.Inputs.{Attempt}

pub record SmallHeader : Type 0 where
  pub slot : ℕ
  pub root : B256
  pub payload : Option ExecutionHeader

pub record SmallUpdate : Type 0 where
  pub header : SmallHeader
  pub committee : ℕ

abbrev pub small_spec : Spec
small_spec = record {
  Header = SmallHeader;
  beacon_slot = λ h. h.slot;
  beacon_root = λ h. h.root;
  execution = λ h. h.payload;
  SyncCommittee = ℕ;
  committee_root = λ c. c + 1000;
  Update = SmallUpdate;
  FinalityUpdate = SmallHeader;
  finalized_header = λ u. u;
  Bootstrap = SmallHeader;
  bootstrap_header = λ b. b;
  Forks = Unit {0};
  StoreRest = Unit {0};
}

abbrev pub header_at : ℕ → SmallHeader
header_at n = record {
  slot = n;
  root = n + 7;
  payload = some (record { block_number = n + 100; state_root = n });
}

abbrev pub store_at : SmallHeader → Option ℕ → LightClientStore small_spec
store_at h next = record {
  finalized_header = h;
  optimistic_header = h;
  current_sync_committee = 1;
  next_sync_committee = next;
  rest = tt;
}

-- An update is valid if it is not of the future. Every finality update has its votes; one that is
-- not newer is skipped.
abbrev pub small_core : Core
small_core = record {
  spec = small_spec;
  verify_update = λ u slot store root forks. if leb u.header.slot slot then ok tt else err (1 ∷ []);
  apply_update = λ store u. (record store { next_sync_committee = some u.committee }, none);
  verify_finality_update =
      λ u slot store root forks. if leb u.slot slot then ok tt else err (2 ∷ []);
  apply_finality_update = λ store u. (
    if ltb store.finalized_header.slot u.slot then record store { finalized_header = u } else store,
    some u.root,
  );
  verify_bootstrap = λ b checkpoint forks. if b.root == checkpoint then ok tt else err (3 ∷ []);
  apply_bootstrap = λ store b. store_at b none;
  calc_sync_period = λ slot. slot / 8192;
  expected_current_slot = λ now genesis. (now - genesis) / 12;
  default_store = store_at (header_at 0) none;
}

-- A proof is the value itself, behind the root and the path.
abbrev pub small_trie : Trie
small_trie = record {
  Nibbles = ℕ;
  address_nibbles = λ a. a + 1;
  key_nibbles = λ k. k + 2;
  rlp_account = λ a. a.nonce ∷ a.storage_root ∷ [];
  rlp_value = λ v. v ∷ [];
  verify_proof = λ root n value proof. elim proof [
    | [] ↦ err (4 ∷ [])
    | text ∷ rest ↦ if text_eq text (root ∷ n ∷ value) then ok tt else err (5 ∷ [])
  ];
}

abbrev pub small_config : Config small_spec
small_config = record {
  genesis_time = 0;
  genesis_root = 9;
  forks = tt;
  strict_checkpoint_age = false;
  max_checkpoint_age = 604800;
}

-- Slot 70 is the current one at second 845.
abbrev pub endpoint : Bool → Endpoint small_spec
endpoint slow = record {
  get_finality_update = ok (header_at 64);
  get_updates = λ from count. ok (record { header = header_at 40; committee = 2 } ∷ []);
  get_bootstrap = λ checkpoint. ok (header_at 32);
  now = λ n. 845;
  timed_out = slow;
}

-- At the same second, 77 seconds after slot 64 began.
abbrev pub logged : List (Endpoint small_spec) → Endpoints small_spec
logged each = record {
  each = each;
  finality_logged = 845000000000;
  optimistic_logged = 845000000000;
}

abbrev pub response : AccountProofResponse
response = record {
  address = 5;
  balance = 0;
  code_hash = 0;
  nonce = 3;
  storage_hash = 8;
  account_proof = (64 ∷ 6 ∷ 3 ∷ 8 ∷ []) ∷ [];
  storage_proof = record { value = 77; proof = (8 ∷ 12 ∷ 77 ∷ []) ∷ [] } ∷ [];
}

abbrev pub provider : Bool → Provider
provider slow = record { get_proof = λ address keys block. ok response; timed_out = slow }

abbrev pub request : ProofRequest
request = record {
  src_chain_contract_address = 5;
  src_chain_storage_slots = 10 ∷ [];
  src_chain_block_number = 150;
  dst_chain_contract_from_head = 32;
  dst_chain_contract_from_header = 39;
  vkey = 21;
}

-- The first endpoint and the first provider time out.
abbrev pub small_attempt : Attempt small_core
small_attempt = record {
  bootstraps = endpoint true ∷ endpoint false ∷ [];
  rpcs = logged (endpoint true ∷ endpoint false ∷ []);
  providers = provider true ∷ provider false ∷ [];
}

abbrev pub contract : ContractStorage
contract = record {
  address = 5;
  expected_value = record { nonce = 3; balance = 0; storage_root = 8; code_hash = 0 };
  mpt_proof = (64 ∷ 6 ∷ 3 ∷ 8 ∷ []) ∷ [];
  storage_slots =
      record { key = 10; expected_value = 77; mpt_proof = (8 ∷ 12 ∷ 77 ∷ []) ∷ [] } ∷ [];
}

abbrev pub inputs : ProofInputs small_spec
inputs = record {
  sync_committee_updates = record { header = header_at 40; committee = 2 } ∷ [];
  finality_update = header_at 64;
  expected_current_slot = 70;
  store = store_at (header_at 32) none;
  genesis_root = 9;
  forks = tt;
  contract_storage_slots = contract;
}

-- What the guest program commits on them.
abbrev pub outputs : ProofOutputs
outputs = record {
  execution_state_root = 64;
  new_header = 71;
  next_sync_committee_hash = 1002;
  new_head = 64;
  prev_header = 39;
  prev_head = 32;
  sync_committee_hash = 1001;
  start_sync_committee_hash = 1001;
  slots = record { key = 10; value = 77; contract_address = 5 } ∷ [];
}
