-- ===== src/Env.antt =====
-- What the service reads of its environment when it starts: `Client::from_env` of
-- zk-api/src/consensus_client/mod.rs, `Proxy::try_from_env` of zk-api/src/rpc_proxies/execution.rs,
-- `RedisStore::new` of zk-api/src/redis_store.rs, and `ProofService::new`, `get_initial_checkpoint`
-- and `init_light_client` of zk-api/src/proof_service.rs. The networks that helios knows, the parser
-- of URLs and the connection to Redis are parameters.
pub mod Checkpoints
pub mod Listed
pub mod Configured
pub mod Start
use sp1_helios.Prelude.{
  ℕ, ltb, ◌^◌, ◌+◌, List, [], ◌∷◌, Option, none, some, Bool, true, false, Result, ok, err, ok_or,
  map_err, Text, codes, split, trim, is_empty, parse_u64, map, if◌then◌else◌,
}
use sp1_helios.Prelude
use sp1_helios.Types.{B256, ProofServiceError}
use sp1_helios.Helios.{Core, Spec}
use sp1_helios.Redis.{Platform}
use sp1_helios.Action.{World}
use sp1_helios.Store.{RedisStore, read_finalized_header}
use sp1_helios.Client.{Client, new, sync}
use sp1_helios.Client.Time.{Config, duration_until_next_update}
use sp1_helios.Client.Rpc.{Endpoints, Endpoint, ClientError}

-- `env::var`: none if the variable is not set, or not Unicode.
abbrev pub Env : Type 0
Env = Text → Option Text

pub data StartError : Type 0 where
  not_set : Text → StartError
  invalid : Text → Text → StartError
  unknown_network : ℕ → StartError
  no_rpc_urls : StartError
  no_endpoints_panic : StartError
  redis_client : Text → StartError
  redis_connect : Text → StartError
  redis_connect_timed_out : StartError
  service : ProofServiceError → StartError
  client : ClientError → StartError
  checkpoint_service : Text → StartError
  block_not_fetched : ℕ → StartError
  negative_wait_panic : StartError

-- A variable that must be set.
abbrev pub required : Env → Text → Result StartError Text
required env name = ok_or (env name) (not_set name)

-- The check that a list is not empty.
unfoldable pub at_least_one : {A : Type 0} → StartError → List A → Result StartError (List A)
at_least_one e [] = err e
at_least_one e (x ∷ xs) = ok (x ∷ xs)

-- helios' base configuration of a network.
pub record Network (s : Spec) : Type 0 where
  pub genesis_time : ℕ
  pub genesis_root : B256
  pub forks : s.Forks

-- The pieces between the commas, trimmed, without the empty ones.
unfoldable pub non_empty : List Text → List Text
non_empty [] = []
non_empty (s ∷ ss) = let rest = non_empty ss in if is_empty (trim s) then rest else trim s ∷ rest

unfoldable pub url_list : Text → List Text
unfolding non_empty
url_list urls = non_empty (split 44 urls)

-- `SOURCE_CHAIN_ID`, parsed, as one of the networks that helios knows by chain id.
unfoldable pub source_network : {N : Type 0} → (ℕ → Option N) → Env → Result StartError N
source_network from_chain_id env =
    Prelude.◌>>=◌ (required env (codes "SOURCE_CHAIN_ID")) λ chain_id.
      Prelude.◌>>=◌ (ok_or (parse_u64 chain_id) (invalid (codes "SOURCE_CHAIN_ID") chain_id))
        λ id. ok_or (from_chain_id id) (unknown_network id)

module _ (h : Core) where
  open h use {spec}

  -- The configuration that `from_env` makes.
  abbrev pub env_config : Network spec → Config spec
  env_config network = record {
    genesis_time = network.genesis_time;
    genesis_root = network.genesis_root;
    forks = network.forks;
    strict_checkpoint_age = false;
    max_checkpoint_age = 604800;
  }

  -- The client, with the paths of its endpoints. The variable's absence and an empty list panic.
  unfoldable pub from_env :
      (ℕ → Option (Network spec)) → Env → Result StartError (Client h × List Text)
  unfolding source_network url_list at_least_one
  from_env networks env = Prelude.◌>>=◌ (source_network networks env) λ network.
      Prelude.◌>>=◌ (required env (codes "CONSENSUS_RPCS_LIST")) λ paths_str.
        Prelude.◌>>=◌ (at_least_one no_endpoints_panic (url_list paths_str))
          λ paths. ok (new h (env_config network), paths)

-- The URLs that parse; the others are skipped.
unfoldable pub valid_urls : {Url : Type 0} → (Text → Option Url) → List Text → List Url
valid_urls parse_url [] = []
valid_urls parse_url (s ∷ ss) =
    let rest = valid_urls parse_url ss in elim (parse_url s) [ none ↦ rest | some url ↦ url ∷ rest ]

unfoldable pub providers_of : {Url : Type 0} → (Text → Option Url) → Option Text → List Url
unfolding valid_urls url_list
providers_of parse_url none = []
providers_of parse_url (some urls_str) = valid_urls parse_url (url_list urls_str)

unfoldable pub try_from_env :
    {Url : Type 0} → (Text → Option Url) → Env → Result StartError (List Url)
unfolding providers_of at_least_one
try_from_env parse_url env =
    at_least_one no_rpc_urls (providers_of parse_url (env (codes "SOURCE_EXECUTION_RPC_URL")))

-- How the connection to a Redis server turns out, within the 5 seconds that it is given.
pub data Connection : Type 0 where
  connected timed_out : Connection
  refused : Text → Connection

unfoldable pub connect : Connection → Result StartError (Unit {0})
connect connected = ok tt
connect timed_out = err redis_connect_timed_out
connect (refused e) = err (redis_connect e)

-- `RedisStore::new` from the reading of the prefix on.
unfoldable pub finish_store :
    (Text → Result Text (Unit {0})) → Connection → Env → Text → ℕ → Result StartError RedisStore
unfolding connect
finish_store open_client connection env redis_url secs =
    Prelude.◌>>=◌ (required env (codes "REDIS_KEY_PREFIX")) λ key_prefix.
      Prelude.◌>>=◌ (map_err redis_client (open_client redis_url)) λ _.
        Prelude.◌>>=◌ (connect connection)
          λ _. ok (record { key_prefix = key_prefix; global_lock_duration_secs = secs })

-- `RedisStore::new`, with `Client::open` and the connection as parameters.
unfoldable pub new_store :
    (Text → Result Text (Unit {0})) → Connection → Env → Result StartError RedisStore
unfolding finish_store
new_store open_client connection env = Prelude.◌>>=◌ (required env (codes "REDIS_URL")) λ redis_url.
    Prelude.◌>>=◌ (required env (codes "REDIS_LOCK_DURATION_SECS")) λ duration.
      Prelude.◌>>=◌
        (ok_or (parse_u64 duration) (invalid (codes "REDIS_LOCK_DURATION_SECS") duration))
        λ secs. finish_store open_client connection env redis_url secs

-- `ProofService::new`: the store, then the proxy's providers.
unfoldable pub new_service :
    {Url : Type 0}
    → (Text → Result Text (Unit {0}))
    → Connection
    → (Text → Option Url)
    → Env
    → Result StartError (RedisStore × List Url)
unfolding new_store try_from_env
new_service open_client connection parse_url env =
    Prelude.◌>>=◌ (new_store open_client connection env) λ redis_store.
      Prelude.◌>>=◌ (try_from_env parse_url env) λ providers. ok (redis_store, providers)

-- `INIT_CHECKPOINT`, by alloy's `B256::from_str`.
unfoldable pub env_checkpoint : (Text → Option B256) → Env → Result StartError B256
env_checkpoint parse_b256 env =
    Prelude.◌>>=◌ (required env (codes "INIT_CHECKPOINT")) λ checkpoint_hex.
      ok_or (parse_b256 checkpoint_hex) (invalid (codes "INIT_CHECKPOINT") checkpoint_hex)

module _ (p : Platform) (r : RedisStore) (parse_b256 : Text → Option B256) (env : Env) where
  -- By what Redis answered.
  unfoldable pub choose_checkpoint :
      Result ProofServiceError (Option p.spec.Header) → Result StartError B256
  unfolding env_checkpoint
  choose_checkpoint (ok (some header)) = ok (p.spec.beacon_root header)
  choose_checkpoint (ok none) = env_checkpoint parse_b256 env
  choose_checkpoint (err e) = err (service e)

  unfoldable pub get_initial_checkpoint : World p → Result StartError B256 × World p
  unfolding choose_checkpoint
  get_initial_checkpoint w =
      let (stored, w') = read_finalized_header p r w in (choose_checkpoint stored, w')

  -- The synced client, and the seconds until the loop first reads the chain. The endpoints are those
  -- of the client's paths; the clock is read twice at the end, and `to_std().unwrap()` panics on a
  -- duration that is negative as `i64`.
  unfoldable pub init_light_client :
      (h : Core)
      → (ℕ → Option (Network h.spec))
      → (List Text → List (Endpoint h.spec) × Endpoints h.spec)
      → ℕ × ℕ
      → World p
      → Result StartError (Client h × ℕ) × World p
  unfolding get_initial_checkpoint from_env
  init_light_client h networks endpoints (read, now) w =
      let (checkpoint, w') = get_initial_checkpoint w in
      (
        Prelude.◌>>=◌ checkpoint λ init_checkpoint.
            Prelude.◌>>=◌ (from_env h networks env) λ created.
              let (completions, rpcs) = endpoints (created.1) in
              Prelude.◌>>=◌ (map_err client (sync h (created.0) init_checkpoint completions rpcs))
                λ synced.
                  let wait = duration_until_next_update h synced.config read now in
                  if ltb wait (2 ^ 63) then ok (synced, wait) else err negative_wait_panic,
        w',
      )
