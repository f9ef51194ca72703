-- ===== src/Examples/Genesis.antt =====
-- The genesis tool on the small chain.
use sp1_helios.Prelude.{
  parse_u64, split, trim_start, trim_end, starts_with, ℕ, ◌≡◌, refl, [], ◌∷◌, List, Option, none,
  some, true, false, Result, ◌++◌, ok, Text, codes, text_eq, if◌then◌else◌,
}
use sp1_helios.Types.{B256}
use sp1_helios.Client.{sync, new}
use sp1_helios.Client.Time.{expected_current_slot}
use sp1_helios.Client.Single.{sync_to_chain_single_rpc, bootstrap_single_rpc}
use sp1_helios.Client.Updates.{get_updates_single_rpc}
use sp1_helios.Client.Select.{select, better}
use sp1_helios.Client.Rpc.{Endpoints, Endpoint}
use sp1_helios.Env.{Env, Network, from_env}
use sp1_helios.Env.Checkpoints.{Fetched}
use sp1_helios.Genesis.{Alloy, Directory, GenesisError, genesis_config}
use sp1_helios.Genesis.Tool.{GenesisArgs, System, generate_genesis}
use sp1_helios.Genesis.Written.{Ended, generate_genesis-Ended}
use sp1_helios.Examples.Chain.{logged, small_spec, small_core, endpoint}

abbrev small_alloy : Alloy
small_alloy = record {
  b256_hex = λ n. n ∷ [];
  address_hex = λ n. n ∷ [];
  parse_address = λ s. none;
  signer_address = λ s. some 3;
}

-- The mock prover, and two updaters, of which one lacks the prefix.
abbrev env : Env
env name =
    if text_eq name (codes "SOURCE_CHAIN_ID")
    then some (codes "1")
    else if text_eq name (codes "SP1_PROVER")
    then some (codes "mock")
    else if text_eq name (codes "UPDATERS")
    then some (codes "0x5, 6")
    else some (codes "u")

abbrev networks : ℕ → Option (Network small_spec)
networks n = some (record { genesis_time = 0; genesis_root = 9; forks = tt })

abbrev endpoints : List Text → List (Endpoint small_spec) × Endpoints small_spec
endpoints paths = (endpoint false ∷ [], logged (endpoint false ∷ []))

abbrev fetch : Text → Fetched B256
fetch path = record { answer = ok 39; in_time = true }

-- A path as one text, the last name first.
abbrev join_names : Directory → Text
join_names [] = []
join_names (name ∷ path) = name ++ join_names path

-- One file is written at most.
abbrev small_system : System
small_system = record {
  Files = Option (Directory × Text);
  current_dir = some (codes "contracts" ∷ codes "repo" ∷ []);
  join = λ path name. name ∷ path;
  exists = λ files path. starts_with (join_names path) (codes ".gitrepo");
  write = λ path text files. (ok tt, some (path, text));
  load_env = λ files path given. env;
  workspace = ok (codes "repo" ∷ []);
  setup = ok (codes "k");
  to_string_pretty = λ g. ok (g.header);
}

abbrev args : GenesisArgs
args = record { slot = none; env_file = codes ".env"; out = codes "contracts" }

abbrev outcome : Result GenesisError (Unit {0}) × Option (Directory × Text)
outcome = (ok tt, some (codes "genesis.json" ∷ codes "contracts" ∷ codes "repo" ∷ [], codes "0xG"))

written :
    generate_genesis small_system small_alloy small_core networks endpoints
      (λ block. block)
      fetch
      (ok tt)
      (λ cf network. ok 39)
      args
      none
      (λ name. none)
    ≡ outcome
unfolding generate_genesis genesis_config text_eq from_env parse_u64 split trim_start trim_end
    starts_with sync sync_to_chain_single_rpc bootstrap_single_rpc get_updates_single_rpc select
    better expected_current_slot new
written = refl

generate_genesis-Ended_example :
    Ended small_system small_alloy small_core networks endpoints
      (λ block. block)
      fetch
      (ok tt)
      (λ cf network. ok 39)
      args
      none
      (λ name. none)
      (generate_genesis small_system small_alloy small_core networks endpoints
        (λ block. block)
        fetch
        (ok tt)
        (λ cf network. ok 39)
        args
        none
        (λ name. none))
generate_genesis-Ended_example =
    generate_genesis-Ended small_system small_alloy small_core networks endpoints (λ block. block)
      fetch (ok tt) (λ cf network. ok 39) args none (λ name. none)
