-- ===== src/Genesis.antt =====
-- cli/bin/genesis.rs: the genesis configuration of the contract. The parsing and printing of
-- addresses and keys is alloy's. `expect` and `unwrap` panic: an error here.
pub mod Describes
pub mod Tool
pub mod Written
use sp1_helios.Prelude.{
  ℕ, ◌*◌, List, [], ◌∷◌, ◌++◌, Option, none, some, Bool, Result, ok, err, ok_or, map_err, ◌>>=◌,
  Text, text_eq, codes, split, trim, starts_with, is_empty, map, if◌then◌else◌,
}
use sp1_helios.Types.{B256, Address}
use sp1_helios.Helios.{Core}
use sp1_helios.Client.{Client, sync}
use sp1_helios.Client.Rpc.{Endpoints, Endpoint, ClientError}
use sp1_helios.Env.{Env, StartError, Network, from_env, required, invalid, client}

abbrev pub seconds_per_slot : ℕ
seconds_per_slot = 12

abbrev pub slots_per_epoch : ℕ
slots_per_epoch = 32

abbrev pub slots_per_period : ℕ
slots_per_period = slots_per_epoch * 256

pub record GenesisConfig : Type 0 where
  pub execution_state_root : Text
  pub genesis_time : ℕ
  pub head : ℕ
  pub header : Text
  pub helios_program_vkey : Text
  pub seconds_per_slot : ℕ
  pub slots_per_epoch : ℕ
  pub slots_per_period : ℕ
  pub sync_committee_hash : Text
  pub verifier : Text
  pub vkey_updater : Text
  pub updaters : List Text

pub data GenesisError : Type 0 where
  start : StartError → GenesisError
  no_payload : GenesisError
  not_set_up : Text → GenesisError
  no_workspace : Text → GenesisError
  not_printed : Text → GenesisError
  not_written : Text → GenesisError

-- A directory, by the names on its path, the last one first.
abbrev pub Directory : Type 0
Directory = List Text

-- alloy's printing with `{:x}`, its parsing of addresses, and the address of a private key.
pub record Alloy : Type 0 where
  pub b256_hex : B256 → Text
  pub address_hex : Address → Text
  pub parse_address : Text → Option Address
  pub signer_address : Text → Option Address

module _ (alloy : Alloy) (env : Env) where
  -- A variable that must be set and parse.
  abbrev pub parsed : (Text → Option Address) → Text → Result GenesisError Address
  parsed parse name =
      map_err start (required env name) >>= λ text. ok_or (parse text) (start (invalid name text))

  -- The zero address for the mock prover, else the variable's.
  unfoldable pub address_unless_mock : Text → Text → Result GenesisError Address
  address_unless_mock sp1_prover name =
      if text_eq sp1_prover (codes "mock") then ok 0 else parsed alloy.parse_address name

  -- An address of `UPDATERS`, trimmed, with its prefix.
  unfoldable pub updater : Text → Text
  updater addr = if starts_with (trim addr) (codes "0x") then trim addr else codes "0x" ++ trim addr

  unfoldable pub updaters_of : Option Text → Address → List Text
  unfolding updater
  updaters_of none deployer = (codes "0x" ++ alloy.address_hex deployer) ∷ []
  updaters_of (some updaters_str) deployer =
      if is_empty updaters_str
      then (codes "0x" ++ alloy.address_hex deployer) ∷ []
      else map updater (split 44 updaters_str)

  module _ (h : Core) where
    open h use {spec, beacon_slot, beacon_root, committee_root, execution}

    -- The configuration of a synced client, once the addresses are known.
    unfoldable pub config_of :
        Client h → Text → Address → Address → List Text → Result GenesisError GenesisConfig
    config_of synced vkey verifier vkey_updater updaters =
        ok_or (execution synced.store.finalized_header) no_payload >>= λ payload. ok (record {
          genesis_time = synced.config.genesis_time;
          seconds_per_slot = seconds_per_slot;
          slots_per_period = slots_per_period;
          slots_per_epoch = slots_per_epoch;
          sync_committee_hash =
              codes "0x" ++ alloy.b256_hex (committee_root synced.store.current_sync_committee);
          header = codes "0x" ++ alloy.b256_hex (beacon_root synced.store.finalized_header);
          execution_state_root = codes "0x" ++ alloy.b256_hex payload.state_root;
          head = beacon_slot synced.store.finalized_header;
          helios_program_vkey = vkey;
          verifier = codes "0x" ++ alloy.address_hex verifier;
          vkey_updater = codes "0x" ++ alloy.address_hex vkey_updater;
          updaters = updaters;
        })

    -- `main` with the key and the checkpoint, up to the writing; the endpoints are those of the
    -- client's paths, and the workspace's root is cargo's answer.
    unfoldable pub genesis_config :
        (ℕ → Option (Network spec))
        → (List Text → List (Endpoint spec) × Endpoints spec)
        → Text
        → Result StartError B256
        → Result GenesisError Directory
        → Result GenesisError (Directory × GenesisConfig)
    unfolding address_unless_mock updaters_of config_of
    genesis_config networks endpoints vkey checkpoint workspace =
        map_err start checkpoint >>= λ init.
        map_err start (required env (codes "SP1_PROVER")) >>= λ sp1_prover.
        address_unless_mock sp1_prover (codes "SP1_VERIFIER_ADDRESS") >>= λ verifier.
        address_unless_mock sp1_prover (codes "VKEY_UPDATER") >>= λ vkey_updater.
        map_err start (from_env h networks env) >>= λ created.
        let (completions, rpcs) = endpoints (created.1) in
        map_err (λ e. start (client e)) (sync h (created.0) init completions rpcs) >>= λ synced.
        workspace >>= λ workspace_root.
        parsed alloy.signer_address (codes "PRIVATE_KEY") >>= λ deployer_address.
        config_of synced vkey verifier vkey_updater
          (updaters_of (env (codes "UPDATERS")) deployer_address)
        >>= λ config. ok (workspace_root, config)
