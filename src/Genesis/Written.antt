-- ===== src/Genesis/Written.antt =====
-- What the genesis tool reads and writes.
use sp1_helios.Prelude.{
  ◌≡◌, ◌⊎◌, refl, sym, ap, ◌∙◌, List, [], ◌∷◌, ◌++◌, Option, none, some, true, false, Result, ok,
  err, codes, subst, map_err, Text, ℕ, Bool-cases, Option-cases, Result-cases, inl, inr, bind-eq-ok,
}
use sp1_helios.Types.{B256}
use sp1_helios.Helios.{Core}
use sp1_helios.Client.Rpc.{Endpoints, Endpoint}
use sp1_helios.Env.{Env, StartError, Network}
use sp1_helios.Env.Checkpoints.{Fetched, try_get_checkpoint, try_get_latest_checkpoint}
use sp1_helios.Genesis.{
  Alloy, Directory, GenesisConfig, GenesisError, not_set_up, not_printed, not_written,
}
use sp1_helios.Genesis.Describes.{Describes, genesis_config-Describes}
use sp1_helios.Genesis.Tool.{
  GenesisArgs, System, has_git, climb, find_project_root, environment, write_genesis_config,
  genesis_checkpoint, configured, generate_genesis,
}

module _ (system : System) where
  open system use {Files}

  -- `path` and its ancestors up to `root`, which is left out, have no `.git`.
  abbrev pub LacksGit : Files → List Text → Directory → Type 0
  LacksGit files [] root = Unit
  LacksGit files (name ∷ below) root =
      (system.exists files (system.join (name ∷ below ++ root) (codes ".git")) ≡ false)
      × LacksGit files below root

  -- The nearest ancestor that has `.git`.
  pub record Nearest (files : Files) (path root : Directory) : Type 0 where
    pub below : List Text
    pub ancestor : path ≡ below ++ root
    pub found : system.exists files (system.join root (codes ".git")) ≡ true
    pub nearer : LacksGit files below root

  -- Neither the directory nor any ancestor has `.git`.
  abbrev pub Nowhere : Files → Directory → Type 0
  Nowhere files [] = system.exists files (system.join [] (codes ".git")) ≡ false
  Nowhere files (name ∷ parent) =
      (system.exists files (system.join (name ∷ parent) (codes ".git")) ≡ false)
      × Nowhere files parent

  climb-cases :
      (files : Files) (path : Directory)
      → ((root : Directory) × (climb system files path ≡ some root) × Nearest files path root)
        ⊎ ((climb system files path ≡ none) × Nowhere files path)
  unfolding climb
  climb-cases files [] = elim (Bool-cases (has_git system files [])) [
    | inl has ↦
        inl ([], rw has refl, record { below = []; ancestor = refl; found = has; nearer = tt })
    | inr lacks ↦ inr (rw lacks refl, lacks)
  ]
  climb-cases files (name ∷ parent) = elim (Bool-cases (has_git system files (name ∷ parent))) [
    | inl has ↦ inl (
      name ∷ parent,
      rw has refl,
      record { below = []; ancestor = refl; found = has; nearer = tt },
    )
    | inr lacks ↦ elim (climb-cases files parent) [
      | inl (root, e, above) ↦ inl (
        root,
        rw lacks e,
        record {
          below = name ∷ above.below;
          ancestor = ap (λ p. name ∷ p) above.ancestor;
          found = above.found;
          nearer = (
            ap (λ p. has_git system files (name ∷ p)) (sym above.ancestor) ∙ lacks,
            above.nearer,
          );
        },
      )
      | inr (e, above) ↦ inr (rw lacks e, (lacks, above))
    ]
  ]

  -- The environment that the tool works in.
  pub data Loaded (args : GenesisArgs) (files : Files) (given : Env) : Env → Type 0 where
    of_root :
        {path root : Directory}
        → system.current_dir ≡ some path
        → Nearest files path root
        → Loaded args files given (system.load_env files (system.join root args.env_file) given)
    no_root :
        {path : Directory}
        → system.current_dir ≡ some path
        → Nowhere files path
        → Loaded args files given given
    no_directory : system.current_dir ≡ none → Loaded args files given given

  abbrev loaded_of : GenesisArgs → Files → Env → Option Directory → Env
  loaded_of args files given none = given
  loaded_of args files given (some root) =
      system.load_env files (system.join root args.env_file) given

  abbrev climb_of : Files → Option Directory → Option Directory
  climb_of files none = none
  climb_of files (some path) = climb system files path

  environment_eq :
      (args : GenesisArgs) (files : Files) (given : Env) {path root : Option Directory}
      → system.current_dir ≡ path
      → climb_of files path ≡ root
      → environment system args files given ≡ loaded_of args files given root
  unfolding environment find_project_root
  environment_eq args files given at_path e =
      ap (loaded_of args files given) (ap (climb_of files) at_path ∙ e)

  environment-Loaded :
      (args : GenesisArgs) (files : Files) (given : Env)
      → Loaded args files given (environment system args files given)
  environment-Loaded args files given = elim (Option-cases system.current_dir) [
    | inl nowhere ↦
        subst (Loaded args files given) (sym (environment_eq args files given nowhere refl))
          (no_directory nowhere)
    | inr (path, at_path) ↦ elim (climb-cases files path) [
      | inl (root, e, near) ↦
          subst (Loaded args files given) (sym (environment_eq args files given at_path e))
            (of_root at_path near)
      | inr (e, none_near) ↦
          subst (Loaded args files given) (sym (environment_eq args files given at_path e))
            (no_root at_path none_near)
    ]
  ]

  module _ (alloy : Alloy) (h : Core) (networks : ℕ → Option (Network h.spec))
      (endpoints : List Text → List (Endpoint h.spec) × Endpoints h.spec) {Block : Type 0}
      (block_root : Block → B256) (fetch : Text → Fetched Block) {S : Type 0}
      (services : Result Text S) (fetch_latest : S → Network h.spec → Result Text B256)
      (args : GenesisArgs) (files : Files) (given : Env) where
    -- The call of `fs::write`.
    abbrev write_to : Directory → Text → Result Text (Unit {0}) × Files
    write_to workspace_root text =
        system.write (system.join (system.join workspace_root args.out) (codes "genesis.json")) text
          files

    -- A call of `fs::write` that answered this and left these files: it was to write this
    -- configuration into cargo's workspace.
    pub record Tried (result : Result Text (Unit {0})) (after : Files) : Type 0 where
      pub env : Env
      pub loaded : Loaded args files given env
      pub config : GenesisConfig
      pub checkpoint : Result StartError B256
      pub of_slot :
          (slot : ℕ)
          → args.slot ≡ some slot
          → checkpoint ≡ try_get_checkpoint h block_root networks fetch env slot
      pub of_latest :
          args.slot ≡ none
          → checkpoint ≡ try_get_latest_checkpoint services fetch_latest networks env
      pub describes : Describes alloy env h networks endpoints checkpoint config
      pub workspace_root : Directory
      pub in_workspace : system.workspace ≡ ok workspace_root
      pub text : Text
      pub printed : system.to_string_pretty config ≡ ok text
      pub written : write_to workspace_root text ≡ (result, after)

    -- Success with the configuration written, or an error: with the files as they were, or with the
    -- call that failed to write it.
    abbrev pub Ended : Result GenesisError (Unit {0}) × Files → Type 0
    Ended (result, after) =
        ((result ≡ ok tt) × Tried (ok tt) after)
        ⊎ ((e : GenesisError) × (result ≡ err e)
            × ((after ≡ files) ⊎ ((why : Text) × Tried (err why) after)))

    abbrev env_now : Env
    env_now = environment system args files given

    abbrev checkpoint_of : Env → Option ℕ → Result StartError B256
    checkpoint_of env none = try_get_latest_checkpoint services fetch_latest networks env
    checkpoint_of env (some slot) = try_get_checkpoint h block_root networks fetch env slot

    abbrev attempt : Result GenesisError (Directory × GenesisConfig)
    attempt =
        configured system alloy h networks endpoints block_root fetch services fetch_latest args
          env_now

    write_genesis_config-Ended :
        (workspace_root : Directory) (config : GenesisConfig)
        → attempt ≡ ok (workspace_root, config)
        → Ended (write_genesis_config system workspace_root config args.out files)
    unfolding configured write_genesis_config genesis_checkpoint
    write_genesis_config-Ended workspace_root config e =
        elim (Result-cases (system.to_string_pretty config)) [
          | inr (why, q) ↦ rw (q, write_genesis_config) (inr (not_printed why, refl, inl refl))
          | inl (text, q) ↦ rw (q, write_genesis_config) (ended text q _ refl)
        ]
      where
        tried :
            (text : Text)
            → system.to_string_pretty config ≡ ok text
            → {result : Result Text (Unit {0})} → (write_to workspace_root text).0 ≡ result
            → Tried result (write_to workspace_root text).1
        tried text q q' =
            let (vkey, made, rest) = bind-eq-ok (map_err not_set_up system.setup) _ e in
            let (in_workspace, describes) =
              genesis_config-Describes alloy env_now h networks endpoints vkey
                (genesis_checkpoint system alloy h networks endpoints block_root fetch services
                  fetch_latest args env_now)
                system.workspace workspace_root config rest in
            record {
              env = env_now;
              loaded = environment-Loaded args files given;
              config = config;
              checkpoint =
                  genesis_checkpoint system alloy h networks endpoints block_root fetch services
                    fetch_latest args env_now;
              of_slot = λ slot e. ap (checkpoint_of env_now) e;
              of_latest = λ e. ap (checkpoint_of env_now) e;
              describes = describes;
              workspace_root = workspace_root;
              in_workspace = in_workspace;
              text = text;
              printed = q;
              written = ap (λ r. (r, (write_to workspace_root text).1)) q';
            }

        ended :
            (text : Text)
            → system.to_string_pretty config ≡ ok text
            → (result : Result Text (Unit {0})) → (write_to workspace_root text).0 ≡ result
            → Ended (map_err not_written result, (write_to workspace_root text).1)
        ended text q (ok done) q' = inl (refl, tried text q q')
        ended text q (err why) q' = inr (not_written why, refl, inr (why, tried text q q'))

    -- If the tool succeeds, it has written, into cargo's workspace under the output directory, the
    -- printing of a configuration of the client that follows the chain from the checkpoint of the slot
    -- that is asked for, or from the latest one. It is made in the given environment, with the file of
    -- the nearest directory with `.git` loaded, from the current one upward, if there is one. If the
    -- tool fails, then the files are as they were, or that one write has failed.
    pub generate_genesis-Ended : Ended (
        generate_genesis system alloy h networks endpoints block_root fetch services fetch_latest
          args files given)
    unfolding generate_genesis
    generate_genesis-Ended = elim (Result-cases attempt) [
      | inr (e, q) ↦ rw (q, generate_genesis) (inr (e, refl, inl refl))
      | inl ((workspace_root, config), q) ↦
          rw (q, generate_genesis) (write_genesis_config-Ended workspace_root config q)
    ]
