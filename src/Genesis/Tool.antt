-- ===== src/Genesis/Tool.antt =====
-- `main` of cli/bin/genesis.rs with find_project_root and write_genesis_config. The file system, the
-- .env loader, cargo, the prover's setup, and what the endpoints and helios' checkpoint services
-- answer, are parameters.
use sp1_helios.Prelude.{
  List, [], ◌∷◌, Option, none, some, Bool, Result, ok, err, map_err, ◌>>=◌, ℕ, Text, codes,
  if◌then◌else◌,
}
use sp1_helios.Types.{B256}
use sp1_helios.Helios.{Core}
use sp1_helios.Client.Rpc.{Endpoints, Endpoint}
use sp1_helios.Env.{Env, StartError, Network}
use sp1_helios.Env.Checkpoints.{Fetched, try_get_checkpoint, try_get_latest_checkpoint}
use sp1_helios.Genesis.{
  Alloy, Directory, GenesisConfig, GenesisError, not_set_up, not_printed, not_written,
  genesis_config,
}

-- The command line's options, with clap's defaults put in.
pub record GenesisArgs : Type 0 where
  pub slot : Option ℕ
  pub env_file : Text
  pub out : Text

-- What the tool asks of its surroundings: std's paths and files, dotenv (without an error, as `ok()`
-- drops it), cargo's workspace, the key from the prover's setup, and serde_json's printing.
pub record System : Type 1 where
  pub Files : Type 0
  pub current_dir : Option Directory
  pub join : Directory → Text → Directory
  pub exists : Files → Directory → Bool
  pub write : Directory → Text → Files → Result Text (Unit {0}) × Files
  pub load_env : Files → Directory → Env → Env
  pub workspace : Result GenesisError Directory
  pub setup : Result Text Text
  pub to_string_pretty : GenesisConfig → Result Text Text

module _ (system : System) where
  open system use {Files}

  -- `path.join(".git").exists()`.
  abbrev pub has_git : Files → Directory → Bool
  has_git files path = system.exists files (system.join path (codes ".git"))

  -- The loop: the root of the file system has no parent to pop to.
  unfoldable pub climb : Files → Directory → Option Directory
  climb files [] = if has_git files [] then some [] else none
  climb files (name ∷ parent) =
      let above = climb files parent in
      if has_git files (name ∷ parent) then some (name ∷ parent) else above

  unfoldable pub find_project_root : Files → Option Directory
  unfolding climb
  find_project_root files = elim system.current_dir [ none ↦ none | some path ↦ climb files path ]

  -- The environment after the file is loaded, if there is a root.
  unfoldable pub environment : GenesisArgs → Files → Env → Env
  unfolding find_project_root
  environment args files env = elim (find_project_root files) [
    | none ↦ env
    | some root ↦ system.load_env files (system.join root args.env_file) env
  ]

  abbrev pub genesis_config_path : Directory → Text → Directory
  genesis_config_path workspace_root out =
      system.join (system.join workspace_root out) (codes "genesis.json")

  unfoldable pub write_genesis_config :
      Directory → GenesisConfig → Text → Files → Result GenesisError (Unit {0}) × Files
  write_genesis_config workspace_root config out files = elim (system.to_string_pretty config) [
    | err e ↦ (err (not_printed e), files)
    | ok text ↦
        let (result, after) = system.write (genesis_config_path workspace_root out) text files in
        (map_err not_written result, after)
  ]

  module _ (alloy : Alloy) (h : Core) (networks : ℕ → Option (Network h.spec))
      (endpoints : List Text → List (Endpoint h.spec) × Endpoints h.spec) {Block : Type 0}
      (block_root : Block → B256) (fetch : Text → Fetched Block) {S : Type 0}
      (services : Result Text S) (fetch_latest : S → Network h.spec → Result Text B256) where
    -- The checkpoint of the slot that is asked for, else the latest.
    unfoldable pub genesis_checkpoint : GenesisArgs → Env → Result StartError B256
    unfolding try_get_checkpoint try_get_latest_checkpoint
    genesis_checkpoint args env = elim args.slot [
      | some slot ↦ try_get_checkpoint h block_root networks fetch env slot
      | none ↦ try_get_latest_checkpoint services fetch_latest networks env
    ]

    -- The configuration, in the loaded environment.
    unfoldable pub configured : GenesisArgs → Env → Result GenesisError (Directory × GenesisConfig)
    unfolding genesis_checkpoint
    configured args env = map_err not_set_up system.setup >>= λ vkey.
        genesis_config alloy env h networks endpoints vkey (genesis_checkpoint args env)
          system.workspace

    -- `main`: its result and the files after it.
    unfoldable pub generate_genesis :
        GenesisArgs → Files → Env → Result GenesisError (Unit {0}) × Files
    unfolding environment configured write_genesis_config
    generate_genesis args files env = elim (configured args (environment args files env)) [
      | err e ↦ (err e, files)
      | ok (workspace_root, config) ↦ write_genesis_config workspace_root config args.out files
    ]
