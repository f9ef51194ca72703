-- ===== src/Client.antt =====
-- zk-api/src/consensus_client/mod.rs: the consensus client over several RPC endpoints.
-- The endpoints of an operation come as a list: for `advance` and `sync_to_chain`, which wait for
-- all, in the client's order; for `bootstrap`, which takes the first success, in the order in
-- which their futures finish.
pub mod Time
pub mod Select
pub mod Batches
pub mod Clock
pub mod Advancement
pub mod Onward
pub mod Rpc
pub mod Updates
pub mod Single
use sp1_helios.Prelude.{
  ℕ, List, [], ◌∷◌, Option, none, some, Result, ok, err, ok_or, ◌>>=◌, leb, ◌==◌, if◌then◌else◌,
  map,
}
use sp1_helios.Types.{B256}
use sp1_helios.Helios.{Core, LightClientStore}
use sp1_helios.Client.Time.{Config, age}
use sp1_helios.Client.Select.{select}
use sp1_helios.Client.Rpc.{
  Endpoint, Endpoints, ClientError, age_panicked, timeout, no_rpcs, all_rpcs_failed,
  head_did_not_advance, no_payload,
}
use sp1_helios.Client.Single.{
  Progress, SyncToChainTrace, bootstrap_single_rpc, advance_single_rpc, sync_to_chain_single_rpc,
}

module _ (h : Core) where
  open h use {spec, Update, FinalityUpdate, Forks, beacon_slot, execution}

  pub record Client : Type 0 where
    pub config : Config spec
    pub store : LightClientStore spec
    pub last_checkpoint : Option B256

  -- `Client::new`, whose `assert!` on the endpoints is a condition of `select_ok` below.
  unfoldable pub new : Config spec → Client
  new config = record { config = config; store = h.default_store; last_checkpoint = none }

  -- `futures::select_ok`: the first success, or the error of the last to finish. It panics on no
  -- futures.
  unfoldable pub select_ok : {A : Type 0} → List (Result ClientError A) → Result ClientError A
  select_ok [] = err no_rpcs
  select_ok (r ∷ []) = r
  select_ok (ok a ∷ r ∷ rs) = ok a
  select_ok (err e ∷ r ∷ rs) = select_ok (r ∷ rs)

  unfoldable pub bootstrap : Client → B256 → List (Endpoint spec) → Result ClientError Client
  unfolding select_ok
  bootstrap client checkpoint completions =
      select_ok (map (bootstrap_single_rpc h client.store client.config checkpoint) completions)
      >>= λ store. ok (record client { store = store; last_checkpoint = some checkpoint })

  -- The age that a log line prints, of which the subtraction may panic.
  unfoldable pub log_age : Config spec → ℕ → ℕ → Result ClientError (Unit {0})
  unfolding age
  log_age config now slot = elim (age h config now slot) [
    | some _ ↦ ok tt
    | none ↦ err age_panicked
  ]

  unfoldable pub log_finality_update : Endpoints spec → Client → Result ClientError (Unit {0})
  unfolding log_age
  log_finality_update rpcs client =
      log_age client.config rpcs.finality_logged (beacon_slot client.store.finalized_header)

  unfoldable pub log_optimistic_update : Endpoints spec → Client → Result ClientError (Unit {0})
  unfolding log_age
  log_optimistic_update rpcs client =
      log_age client.config rpcs.optimistic_logged (beacon_slot client.store.optimistic_header)

  unfoldable pub set_store : Client → LightClientStore spec → Option B256 → Client
  set_store client store none = record client { store = store }
  set_store client store (some checkpoint) = record client {
    store = store;
    last_checkpoint = some checkpoint;
  }

  unfoldable pub apply_store_update :
      Endpoints spec → Client → LightClientStore spec → Option B256 → Result ClientError Client
  unfolding set_store log_finality_update log_optimistic_update
  apply_store_update rpcs client store checkpoint =
      let updated = set_store client store checkpoint in
      (if beacon_slot store.finalized_header == beacon_slot client.store.finalized_header
        then ok tt
        else log_finality_update rpcs updated)
      >>= λ _.
          (if beacon_slot store.optimistic_header == beacon_slot client.store.optimistic_header
            then ok tt
            else log_optimistic_update rpcs updated)
          >>= λ _. ok updated

  unfoldable pub advance : Client → Endpoints spec → Result ClientError Client
  unfolding apply_store_update
  advance client rpcs =
      let results =
        map (λ rpc. timeout rpc (advance_single_rpc h client.store client.config rpc)) rpcs.each in
      elim (select spec (λ (p : Progress h). p.0) none results) [
        | some (store, checkpoint) ↦ apply_store_update rpcs client store checkpoint
        | none ↦ err all_rpcs_failed
      ]

  unfoldable pub sync_to_chain :
      Client → Endpoints spec → Result ClientError (SyncToChainTrace h × Client)
  unfolding apply_store_update
  sync_to_chain client rpcs =
      let results =
        map (λ rpc. timeout rpc (sync_to_chain_single_rpc h client.store client.config rpc))
          rpcs.each in
      elim (select spec (λ (t : SyncToChainTrace h). t.final_store) none results) [
        | some trace ↦
            apply_store_update rpcs client trace.final_store trace.last_checkpoint >>= λ updated.
            ok (trace, updated)
        | none ↦ err all_rpcs_failed
      ]

  unfoldable pub sync :
      Client → B256 → List (Endpoint spec) → Endpoints spec → Result ClientError Client
  unfolding bootstrap sync_to_chain
  sync client checkpoint completions rpcs =
      bootstrap (record client { store = h.default_store; last_checkpoint = none }) checkpoint
        completions
      >>= λ booted. sync_to_chain booted rpcs >>= λ r. ok (r.1)

  pub record ConsensusProofInputs : Type 0 where
    pub initial_store : LightClientStore spec
    pub expected_current_slot : ℕ
    pub genesis_root : B256
    pub forks : Forks
    pub sync_committee_updates : List Update
    pub finality_update : FinalityUpdate
    pub execution_block_id : ℕ
    pub config : Config spec

  -- `get_proof_inputs`, with the checkpoint of the request.
  unfoldable pub get_proof_inputs :
      Config spec
      → B256
      → List (Endpoint spec)
      → Endpoints spec
      → Result ClientError ConsensusProofInputs
  unfolding new bootstrap sync_to_chain
  get_proof_inputs config from_header completions rpcs =
      bootstrap (new config) from_header completions >>= λ client.
      sync_to_chain client rpcs >>= λ r.
      let initial_slot = beacon_slot client.store.finalized_header in
      let new_slot = beacon_slot r.1.store.finalized_header in
      if leb new_slot initial_slot
      then err (head_did_not_advance initial_slot new_slot)
      else ok_or (execution r.1.store.finalized_header) no_payload >>= λ payload. ok (record {
        initial_store = client.store;
        expected_current_slot = r.0.expected_current_slot;
        genesis_root = config.genesis_root;
        forks = config.forks;
        sync_committee_updates = r.0.sync_committee_updates;
        finality_update = r.0.finality_update;
        execution_block_id = payload.block_number;
        config = config;
      })
