-- ===== src/Helios.antt =====
-- What the source uses of helios_consensus_core: its light-client types, and the functions that
-- verify and apply bootstraps, updates and finality updates. They are parameters of the model.
use sp1_helios.Prelude.{ℕ, Option, Result, Text}
use sp1_helios.Types.{B256}

-- The fields of an execution payload header that the source reads.
pub record ExecutionHeader : Type 0 where
  pub block_number : ℕ
  pub state_root : B256

-- The types, with the accessors that the source calls. `execution` is `none` before the fork that
-- adds the payload header.
pub record Spec : Type 1 where
  pub Header : Type 0
  pub beacon_slot : Header → ℕ
  pub beacon_root : Header → B256
  pub execution : Header → Option ExecutionHeader
  pub SyncCommittee : Type 0
  pub committee_root : SyncCommittee → B256
  pub Update : Type 0
  pub FinalityUpdate : Type 0
  pub finalized_header : FinalityUpdate → Header
  pub Bootstrap : Type 0
  pub bootstrap_header : Bootstrap → Header
  pub Forks : Type 0
  -- the fields of a store that the source never names
  pub StoreRest : Type 0

-- `LightClientStore`. Its fields are public, and the source reads and writes those named here.
pub record LightClientStore (s : Spec) : Type 0 where
  pub finalized_header : s.Header
  pub optimistic_header : s.Header
  pub current_sync_committee : s.SyncCommittee
  pub next_sync_committee : Option s.SyncCommittee
  pub rest : s.StoreRest

-- The functions. An error is its printed text.
pub record Core : Type 1 where
  pub spec : Spec
  pub open spec use *
  pub verify_update : Update → ℕ → LightClientStore spec → B256 → Forks → Result Text (Unit {0})
  pub apply_update : LightClientStore spec → Update → LightClientStore spec × Option B256
  pub verify_finality_update :
      FinalityUpdate → ℕ → LightClientStore spec → B256 → Forks → Result Text (Unit {0})
  pub apply_finality_update :
      LightClientStore spec → FinalityUpdate → LightClientStore spec × Option B256
  pub verify_bootstrap : Bootstrap → B256 → Forks → Result Text (Unit {0})
  pub apply_bootstrap : LightClientStore spec → Bootstrap → LightClientStore spec
  pub calc_sync_period : ℕ → ℕ
  -- the slot at a Unix time in seconds, from the genesis time
  pub expected_current_slot : ℕ → ℕ → ℕ
  -- `LightClientStore::default()`
  pub default_store : LightClientStore spec
