-- ===== src/Examples/Starts.antt =====
-- The service's start, from a small environment.
use sp1_helios.Prelude.{
  ℕ, ◌≡◌, ◌≢◌, ◌↔◌, refl, [], ◌∷◌, List, Option, none, some, ok, err, true, Text, codes, text_eq,
  join, map, All, parse_u64, split, trim_start, trim_end, if◌then◌else◌,
}
use sp1_helios.Action.{World}
use sp1_helios.Action.Runs.{Shows}
use sp1_helios.Store.{parse_reply, finalized_header_key}
use sp1_helios.Client.{Client, new}
use sp1_helios.Env.{
  Env, Network, connected, env_config, from_env, new_store, get_initial_checkpoint,
}
use sp1_helios.Env.Checkpoints.{Fetched, Serves, timely, try_get_checkpoint, try_get_checkpoint_iff}
use sp1_helios.Env.Listed.{Entry, IsPlain, urls_of, spelled, Names, Fresh, from_env_iff}
use sp1_helios.Env.Configured.{Configured, new_store-Configured}
use sp1_helios.Env.Start.{Chosen, get_initial_checkpoint-Chosen}
use sp1_helios.Examples.Chain.{small_core, small_spec}
use sp1_helios.Examples.Server.{
  small_platform, small_documented, small_reachable, small_store, stored_header,
}

-- " u,, v" as three entries.
abbrev entries : List Entry
entries =
    record { before = []; url = []; after = [] }
    ∷ record { before = 32 ∷ []; url = codes "v"; after = [] }
    ∷ []

abbrev first_entry : Entry
first_entry = record { before = 32 ∷ []; url = codes "u"; after = [] }

abbrev pub env : Env
env name =
    if text_eq name (codes "SOURCE_CHAIN_ID")
    then some (codes "+1")
    else if text_eq name (codes "REDIS_URL")
    then some (codes "r")
    else if text_eq name (codes "REDIS_LOCK_DURATION_SECS")
    then some (codes "30")
    else if text_eq name (codes "REDIS_KEY_PREFIX")
    then some (codes "p")
    else some (codes " u,, v")

entries-IsPlain : All IsPlain (first_entry ∷ entries)
entries-IsPlain = (
  ((refl, tt), (refl, tt), (refl, tt), tt),
  ((tt, tt, tt, tt), (((refl, tt), (refl, tt), (refl, tt), tt), tt)),
)

-- Only the URL "v" parses.
abbrev parse_url : Text → Option ℕ
parse_url s = if text_eq s (codes "v") then some 7 else none

abbrev pub network : Network small_spec
network = record { genesis_time = 0; genesis_root = 9; forks = tt }

abbrev pub networks : ℕ → Option (Network small_spec)
networks n = some network

listed_paths :
    env (codes "CONSENSUS_RPCS_LIST") ≡ some (join 44 (map spelled (first_entry ∷ entries)))
unfolding join text_eq
listed_paths = refl

abbrev paths : List Text
paths = codes "u" ∷ codes "v" ∷ []

from_env_iff_example :
    (from_env small_core networks env ≡ ok (new small_core (env_config small_core network), paths))
    ↔ ((n : Network small_spec) × Names networks env n
        × Fresh small_core n (new small_core (env_config small_core network))
        × (paths ≡ urls_of (first_entry ∷ entries))
        × (paths ≢ []))
from_env_iff_example =
    from_env_iff small_core networks env first_entry entries
      (new small_core (env_config small_core network)) paths entries-IsPlain listed_paths

made : new_store (λ url. ok tt) connected env ≡ ok small_store
unfolding new_store text_eq parse_u64
made = refl

new_store-Configured_example : Configured (λ url. ok tt) connected env small_store
new_store-Configured_example = new_store-Configured (λ url. ok tt) connected env small_store made

abbrev world : World small_platform
world = record { server = stored_header; spawned = [] }

get_initial_checkpoint-Chosen_example :
    (((get_initial_checkpoint small_platform small_store (λ text. some 5) env world).0 ≡ ok 71)
      ↔ Chosen small_platform
          (λ text. some 5)
          env
          (parse_reply small_platform small_platform.header_json
            (stored_header (finalized_header_key small_platform small_store)))
          71)
    × Shows
        (get_initial_checkpoint small_platform small_store (λ text. some 5) env world).1
        stored_header
        []
get_initial_checkpoint-Chosen_example =
    get_initial_checkpoint-Chosen {p = small_platform} small_documented small_reachable small_store
      (λ text. some 5) env stored_header [] world 71
      (record { same_values = λ j. refl; same_tasks = refl })

-- The endpoint "u" fails, and "v" answers with the block 6.
abbrev fetch : Text → Fetched ℕ
fetch path =
    if text_eq path (codes "v")
    then record { answer = ok 6; in_time = true }
    else record { answer = err []; in_time = true }

served : try_get_checkpoint small_core (λ block. block) networks fetch env 32 ≡ ok 6
unfolding try_get_checkpoint text_eq parse_u64 split trim_end trim_start timely
served = refl

try_get_checkpoint_iff_example :
    (try_get_checkpoint small_core (λ block. block) networks fetch env 32 ≡ ok 6) ↔ (
      (client : Client small_core) × (paths : List Text) × (from_env small_core networks env
        ≡ ok (client, paths))
      × (block : ℕ) × Serves (map fetch paths) block
      × (6 ≡ block))
try_get_checkpoint_iff_example =
    try_get_checkpoint_iff small_core (λ block. block) networks fetch env 32 6
