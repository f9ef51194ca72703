-- ===== src/Examples/Whole.antt =====
-- A start of the service on an empty server, and the first round of its loop.
use sp1_helios.Prelude.{
  ◌≡◌, refl, List, [], ◌∷◌, none, some, Option, Result, err, codes, if◌then◌else◌, true, false, ok,
  Text, text_eq, split, trim_start, trim_end, parse_u64,
}
use sp1_helios.Action.{World, attempt, pure, lift, query, ◌>>=◌}
use sp1_helios.Store.{
  RedisStore, finalized_header_key, proof_state_key, release_global_lock, acquire_global_lock,
  try_acquire_lock, global_lock_key, read_finalized_header, read_json_value, parse_reply,
  find_requests_by_status, scan_loop, fetch_matching, matching, proof_state_keys,
  update_finalized_header_and_proof_states, state_writes,
}
use sp1_helios.Service.{
  process_new_finalized_header, process_header_with, process_new_finalized_header_locked,
  should_update, with_global_lock, restart_orphaned_proofs, spawn_all, update_redis_state,
  apply_new_header,
}
use sp1_helios.Service.Readable.{StoredFrom}
use sp1_helios.Client.{new, advance, sync}
use sp1_helios.Client.Time.{
  age, slot_timestamp, expected_current_slot, duration_until_next_update, is_valid_checkpoint,
}
use sp1_helios.Client.Rpc.{Endpoints, Endpoint}
use sp1_helios.Client.Select.{select, better}
use sp1_helios.Client.Single.{sync_to_chain_single_rpc, bootstrap_single_rpc}
use sp1_helios.Client.Updates.{get_updates_single_rpc}
use sp1_helios.Env.{Env, connected, new_store, new_service, env_config, init_light_client}
use sp1_helios.Entry.{main, running}
use sp1_helios.Entry.Launched.{Launched, main-Launched}
use sp1_helios.Run.{no_header, check_header_health, advance_light_client}
use sp1_helios.Run.Loop.{platform, Driver, Round, run_service, RunError, unhealthy}
use sp1_helios.Run.Whole.{run_service-StoredFrom}
use sp1_helios.Examples.Chain.{logged, small_spec, small_core, header_at, store_at, endpoint}
use sp1_helios.Examples.Server.{small_documented, small_reachable, small_store}
use sp1_helios.Examples.Starts.{env, network, networks}
use sp1_helios.Examples.Rounds.{exact_host, exact_reads}

abbrev empty : World (platform small_spec exact_host)
empty = record { server = λ j. none; spawned = [] }

-- The checkpoint is that of slot 32. Nothing new comes in the round.
abbrev first_round : List (Round small_core exact_host small_store)
first_round = record { now = 2100000000000; rpcs = logged [] } ∷ []

abbrev endpoints : List Text → List (Endpoint small_spec) × Endpoints small_spec
endpoints paths = (endpoint false ∷ [], logged (endpoint false ∷ []))

abbrev after : Driver small_core exact_host small_store
after = record {
  light_client = record {
    config = env_config small_core network;
    store = record (store_at (header_at 32) (some 2)) { finalized_header = header_at 64 };
    last_checkpoint = some 71;
  };
  should_advance_redis_state = false;
}

ran :
    (run_service small_core exact_host small_store
      (λ text. some 39)
      env
      networks
      endpoints
      (845, 845)
      first_round
      empty).0
    ≡ ok after
unfolding run_service check_header_health age slot_timestamp update_redis_state
    restart_orphaned_proofs spawn_all find_requests_by_status scan_loop fetch_matching matching
    proof_state_keys proof_state_key process_new_finalized_header with_global_lock
    process_header_with process_new_finalized_header_locked should_update read_finalized_header
    read_json_value finalized_header_key global_lock_key acquire_global_lock try_acquire_lock
    release_global_lock text_eq ◌>>=◌ pure lift attempt query parse_reply advance_light_client
    advance select better expected_current_slot get_updates_single_rpc init_light_client sync
    duration_until_next_update is_valid_checkpoint sync_to_chain_single_rpc bootstrap_single_rpc
    apply_new_header update_finalized_header_and_proof_states state_writes parse_u64 split
    trim_start trim_end new
ran = refl

run_service-StoredFrom_example :
    StoredFrom
      (platform small_spec exact_host)
      small_store
      64
      (run_service small_core exact_host small_store
        (λ text. some 39)
        env
        networks
        endpoints
        (845, 845)
        first_round
        empty).1
run_service-StoredFrom_example =
    run_service-StoredFrom small_core exact_host small_store small_documented small_reachable
      (λ b. refl) exact_reads (λ text. some 39) env networks endpoints (845, 845) first_round empty
      after ran refl

abbrev port_env : Env
port_env name = if text_eq name (codes "PORT") then some (codes "+3000") else env name

abbrev url_of : Text → Option Text
url_of s = some s

abbrev tries_to_run : RedisStore → List Text → Result RunError (Unit {0})
tries_to_run store providers = err (unhealthy no_header)

flushed :
    (main (ok tt) (ok tt) (λ url. ok tt) connected url_of port_env (λ port. ok tt) tries_to_run).1
    ≡ true
unfolding main new_service new_store text_eq parse_u64 split trim_start trim_end
flushed = refl

main-Launched_example :
    (store : RedisStore) × (providers : List Text) × Launched
      (ok tt)
      (ok tt)
      (λ url. ok tt)
      connected
      url_of
      port_env
      (λ port. ok tt)
      store
      providers
    × ((main
          (ok tt)
          (ok tt)
          (λ url. ok tt)
          connected
          url_of
          port_env
          (λ port. ok tt)
          tries_to_run).0
        ≡ running (unhealthy no_header))
main-Launched_example =
    main-Launched (ok tt) (ok tt) (λ url. ok tt) connected url_of port_env (λ port. ok tt)
      tries_to_run flushed
