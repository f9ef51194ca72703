-- ===== src/Examples/Rounds.antt =====
-- The main loop on the small server, with headers that are stored in full.
use sp1_helios.Prelude.{
  ◌≡◌, refl, sym, ap, ◌∙◌, List, [], ◌∷◌, none, some, true, false, Result, ok, err, Text, text_eq,
  arith, Option-cases, inl, inr,
}
use sp1_helios.Action.{World, attempt, pure, lift, query, ◌>>=◌}
use sp1_helios.Action.Runs.{put}
use sp1_helios.Store.{
  finalized_header_key, proof_state_key, release_global_lock, acquire_global_lock, try_acquire_lock,
  global_lock_key, read_finalized_header, read_json_value, parse_reply, find_requests_by_status,
  scan_loop, fetch_matching, matching, proof_state_keys,
}
use sp1_helios.Service.{
  process_new_finalized_header, process_header_with, process_new_finalized_header_locked,
  should_update, with_global_lock, restart_orphaned_proofs, spawn_all, update_redis_state,
}
use sp1_helios.Service.Readable.{StoredFrom}
use sp1_helios.Client.{advance}
use sp1_helios.Client.Time.{age, slot_timestamp, expected_current_slot}
use sp1_helios.Client.Select.{select, better}
use sp1_helios.Client.Single.{advance_single_rpc}
use sp1_helios.Client.Updates.{get_updates_single_rpc}
use sp1_helios.Run.{check_header_health, advance_light_client}
use sp1_helios.Run.Loop.{Host, platform, Driver, Round, run}
use sp1_helios.Run.Onward.{NotBehind, run-Onward}
use sp1_helios.Client.Onward.{Grows}
use sp1_helios.Examples.Chain.{
  logged, small_spec, small_core, small_config, SmallHeader, header_at, store_at, endpoint,
}
use sp1_helios.Examples.Server.{
  small_platform, small_redis, small_documented, small_reachable, small_store,
}

abbrev exact_text : SmallHeader → Text
exact_text h = elim h.payload [
  | none ↦ h.slot ∷ h.root ∷ []
  | some e ↦ h.slot ∷ h.root ∷ e.block_number ∷ e.state_root ∷ []
]

abbrev exact_from : Text → Result Text SmallHeader
exact_from (s ∷ r ∷ []) = ok (record { slot = s; root = r; payload = none })
exact_from (s ∷ r ∷ n ∷ t ∷ []) =
    ok (record { slot = s; root = r; payload = some (record { block_number = n; state_root = t }) })
exact_from _ = err []

abbrev pub exact_host : Host small_spec
exact_host = record {
  redis = small_redis;
  ProofOutput = Text;
  header_json = record { to_string = λ h. ok (exact_text h); from_str = exact_from };
  state_json = small_platform.state_json;
  rlp = small_platform.rlp;
  keccak256 = small_platform.keccak256;
  to_hex = small_platform.to_hex;
  scan_fuel = 3;
}

exact_from-text : (h : SmallHeader) → exact_from (exact_text h) ≡ ok h
exact_from-text h = elim (Option-cases h.payload) [ inl q ↦ rw q refl | inr (e, q) ↦ rw q refl ]

pub exact_reads :
    (h : SmallHeader) (json : Text)
    → ◌≡◌ {A = Result Text Text} (ok (exact_text h)) (ok json)
    → exact_from json ≡ ok h
exact_reads h json e =
    let same : exact_text h ≡ json = ground arith in ap exact_from (sym same) ∙ exact_from-text h

-- The header of slot 64 is stored.
abbrev world : World (platform small_spec exact_host)
world = record {
  server =
      put (λ j. none) (finalized_header_key (platform small_spec exact_host) small_store)
        (exact_text (header_at 64));
  spawned = [];
}

abbrev driver : Driver small_core exact_host small_store
driver = record {
  light_client = record {
    config = small_config;
    store = store_at (header_at 32) none;
    last_checkpoint = none;
  };
  should_advance_redis_state = true;
}

-- At second 2100 the stored header is old, but not too old. The client advances to slot 64 in the
-- first round, and in the second finds that the store has it.
abbrev rounds : List (Round small_core exact_host small_store)
rounds =
    record { now = 2100000000000; rpcs = logged (endpoint false ∷ []) }
    ∷ record { now = 2100000000000; rpcs = logged [] }
    ∷ []

abbrev after : Driver small_core exact_host small_store
after = record {
  light_client = record {
    config = small_config;
    store = record (store_at (header_at 32) (some 2)) { finalized_header = header_at 64 };
    last_checkpoint = some 71;
  };
  should_advance_redis_state = false;
}

ran : (run small_core exact_host small_store rounds driver world).0 ≡ ok after
unfolding run check_header_health age slot_timestamp update_redis_state restart_orphaned_proofs
    spawn_all find_requests_by_status scan_loop fetch_matching matching proof_state_keys
    proof_state_key process_new_finalized_header with_global_lock process_header_with
    process_new_finalized_header_locked should_update read_finalized_header read_json_value
    finalized_header_key global_lock_key acquire_global_lock try_acquire_lock release_global_lock
    text_eq ◌>>=◌ pure lift attempt query parse_reply advance_light_client advance select better
    advance_single_rpc expected_current_slot get_updates_single_rpc
ran = refl

small_grows : Grows small_core
small_grows = record {
  apply_update_grows = λ s u. omega arith;
  apply_finality_update_grows = λ s u. ground arith;
}

run-Onward_example :
    StoredFrom
      (platform small_spec exact_host)
      small_store
      40
      (run small_core exact_host small_store rounds driver world).1
    × NotBehind small_core exact_host small_store small_documented small_reachable
        (λ b. refl)
        exact_reads
        small_grows
        driver
        (run small_core exact_host small_store rounds driver world).0
unfolding parse_reply text_eq finalized_header_key
run-Onward_example =
    run-Onward small_core exact_host small_store small_documented small_reachable (λ b. refl)
      exact_reads small_grows rounds driver world 40
      (record { header = header_at 64; readable = refl; as_new = omega arith })
