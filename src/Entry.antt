-- ===== src/Entry.antt =====
-- zk-api/src/main.rs, with the start of the API server of zk-api/src/api.rs. What sets up tracing and
-- the backend, and what binds a port, are parameters; so is the environment, after dotenv.
pub mod Launched
use sp1_helios.Prelude.{
  ℕ, ◌^◌, Option, none, some, Bool, true, false, Result, ok, err, ok_or, map_err, ltb, Text, codes,
  parse_u64, if◌then◌else◌, List,
}
use sp1_helios.Prelude
use sp1_helios.Store.{RedisStore}
use sp1_helios.Env.{Env, StartError, Connection, required, invalid, new_service}
use sp1_helios.Run.Loop.{RunError}

-- How the process ends. It has no other end than an error or a panic.
pub data Exit : Type 0 where
  set_up : Text → Exit
  service : StartError → Exit
  port_panic : StartError → Exit
  bind_panic : Text → Exit
  running : RunError → Exit
  unexpected : Exit

-- `parse::<u16>()`.
unfoldable pub parse_u16 : Text → Option ℕ
parse_u16 s = elim (parse_u64 s) [ none ↦ none | some n ↦ if ltb n (2 ^ 16) then some n else none ]

-- The port of `start_api_server`, whose `expect`s panic.
unfoldable pub api_port : Env → Result StartError ℕ
unfolding parse_u16
api_port env =
    Prelude.◌>>=◌ (required env (codes "PORT"))
      λ port. ok_or (parse_u16 port) (invalid (codes "PORT") port)

-- `start_api_server`, up to the task that serves.
unfoldable pub start_api_server : Env → (ℕ → Result Text (Unit {0})) → Result Exit (Unit {0})
unfolding api_port
start_api_server env bind =
    Prelude.◌>>=◌ (map_err port_panic (api_port env)) λ port. map_err bind_panic (bind port)

module _ {Url : Type 0} (tracing backend : Result Text (Unit {0}))
    (open_client : Text → Result Text (Unit {0})) (connection : Connection)
    (parse_url : Text → Option Url) (env : Env) (bind : ℕ → Result Text (Unit {0})) where
  -- `main` up to the main loop.
  unfoldable pub launch : Result Exit (RedisStore × List Url)
  unfolding start_api_server
  launch = Prelude.◌>>=◌ (map_err set_up tracing) λ _. Prelude.◌>>=◌ (map_err set_up backend) λ _.
      Prelude.◌>>=◌ (map_err service (new_service open_client connection parse_url env))
        λ proof_service. Prelude.◌>>=◌ (start_api_server env bind) λ _. ok proof_service

  -- `main`, by how the main loop ends: how the process ends, and whether the posts to Slack were
  -- waited for.
  unfoldable pub main : (RedisStore → List Url → Result RunError (Unit {0})) → Exit × Bool
  unfolding launch
  main run = elim launch [
    | err e ↦ (e, false)
    | ok (store, providers) ↦ elim (run store providers) [
      | err e ↦ (running e, true)
      | ok _ ↦ (unexpected, true)
    ]
  ]
