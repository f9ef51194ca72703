-- ===== src/Client/Single.antt =====
-- One endpoint's part of `sync_to_chain`, `advance` and `bootstrap`, and the helpers that apply
-- updates, of zk-api/src/consensus_client/mod.rs.
use sp1_helios.Prelude.{
  ℕ, ◌+◌, List, [], ◌∷◌, Option, none, some, Result, ok, err, map_err, is_ok, ◌>>=◌, not, is_some,
  if◌then◌else◌, length, ◌&&◌,
}
use sp1_helios.Types.{B256}
use sp1_helios.Helios.{Core, LightClientStore}
use sp1_helios.Client.Time.{Config, expected_current_slot, is_valid_checkpoint}
use sp1_helios.Client.Rpc.{
  Endpoint, ClientError, rpc_error, verify_error, checkpoint_too_old, timeout,
}
use sp1_helios.Client.Updates.{get_updates_single_rpc}

module _ (h : Core) where
  open h use {spec, Update, FinalityUpdate, beacon_slot}

  pub record SyncToChainTrace : Type 0 where
    pub sync_committee_updates : List Update
    pub finality_update : FinalityUpdate
    pub final_store : LightClientStore spec
    pub last_checkpoint : Option B256
    pub expected_current_slot : ℕ

  -- A store and the last checkpoint, which an update that gives no checkpoint leaves alone.
  abbrev pub Progress : Type 0
  Progress = LightClientStore spec × Option B256

  unfoldable pub keep_checkpoint : Option B256 → Option B256 → Option B256
  keep_checkpoint checkpoint none = checkpoint
  keep_checkpoint checkpoint (some new) = some new

  unfoldable pub apply_update : Progress → Update → Progress
  unfolding keep_checkpoint
  apply_update (store, checkpoint) update =
      let (store', new) = h.apply_update store update in (store', keep_checkpoint checkpoint new)

  unfoldable pub apply_finality_update : Progress → FinalityUpdate → Progress
  unfolding keep_checkpoint
  apply_finality_update (store, checkpoint) update =
      let (store', new) = h.apply_finality_update store update in
      (store', keep_checkpoint checkpoint new)

  -- The loop of `sync_to_chain_single_rpc`. The clock is read again for each update, for the
  -- n-th time here.
  unfoldable pub verify_updates :
      ℕ → Config spec → Endpoint spec → Progress → List Update → Result ClientError Progress
  unfolding apply_update expected_current_slot
  verify_updates n config rpc progress [] = ok progress
  verify_updates n config rpc progress (update ∷ updates) =
      let rest = verify_updates (n + 1) config rpc (apply_update progress update) updates in
      map_err verify_error (
        h.verify_update update (expected_current_slot h config (rpc.now n)) progress.0
          config.genesis_root config.forks)
      >>= λ _. rest

  -- From the verified updates on: the finality update.
  unfoldable pub finish_sync :
      Config spec → Endpoint spec → ℕ → List Update → Progress → Result ClientError SyncToChainTrace
  unfolding apply_finality_update expected_current_slot
  finish_sync config rpc slot updates progress =
      map_err rpc_error rpc.get_finality_update >>= λ finality_update.
      map_err verify_error (
        h.verify_finality_update finality_update
          (expected_current_slot h config (rpc.now (1 + length updates))) progress.0
          config.genesis_root config.forks)
      >>= λ _.
          let (store, checkpoint) = apply_finality_update progress finality_update in
          ok (record {
            sync_committee_updates = updates;
            finality_update = finality_update;
            final_store = store;
            last_checkpoint = checkpoint;
            expected_current_slot = slot;
          })

  unfoldable pub sync_to_chain_single_rpc :
      LightClientStore spec → Config spec → Endpoint spec → Result ClientError SyncToChainTrace
  unfolding verify_updates finish_sync
  sync_to_chain_single_rpc store config rpc =
      let slot = expected_current_slot h config (rpc.now 0) in
      get_updates_single_rpc h slot (beacon_slot store.finalized_header) rpc >>= λ updates.
      verify_updates 1 config rpc (store, none) updates >>= λ progress.
      finish_sync config rpc slot updates progress

  -- The optional sync-committee update of `advance_single_rpc`: one that does not verify, or an
  -- answer of another length, is ignored.
  unfoldable pub try_update : Config spec → Endpoint spec → Progress → List Update → Progress
  unfolding apply_update expected_current_slot
  try_update config rpc progress (update ∷ []) =
      if is_ok (
        h.verify_update update (expected_current_slot h config (rpc.now 1)) progress.0
          config.genesis_root config.forks)
      then apply_update progress update
      else progress
  try_update config rpc progress _ = progress

  unfoldable pub check_committee :
      Config spec → Endpoint spec → Progress → Result ClientError Progress
  unfolding try_update
  check_committee config rpc progress =
      if is_some progress.0.next_sync_committee
      then ok progress
      else map_err rpc_error
          (rpc.get_updates (h.calc_sync_period (beacon_slot progress.0.finalized_header)) 1)
        >>= λ updates. ok (try_update config rpc progress updates)

  unfoldable pub advance_single_rpc :
      LightClientStore spec → Config spec → Endpoint spec → Result ClientError Progress
  unfolding apply_finality_update check_committee expected_current_slot
  advance_single_rpc store config rpc =
      map_err rpc_error rpc.get_finality_update >>= λ finality_update.
      map_err verify_error (
        h.verify_finality_update finality_update (expected_current_slot h config (rpc.now 0)) store
          config.genesis_root config.forks)
      >>= λ _. check_committee config rpc (apply_finality_update (store, none) finality_update)

  -- The future that `bootstrap` creates for one endpoint.
  unfoldable pub bootstrap_single_rpc :
      LightClientStore spec
      → Config spec
      → B256
      → Endpoint spec
      → Result ClientError (LightClientStore spec)
  unfolding is_valid_checkpoint
  bootstrap_single_rpc store config checkpoint rpc = timeout rpc (
      map_err rpc_error (rpc.get_bootstrap checkpoint) >>= λ bootstrap.
      if not (is_valid_checkpoint h config (rpc.now 0) (beacon_slot (h.bootstrap_header bootstrap)))
        && config.strict_checkpoint_age
      then err checkpoint_too_old
      else map_err verify_error (h.verify_bootstrap bootstrap checkpoint config.forks) >>= λ _.
          ok (h.apply_bootstrap store bootstrap))
