-- ===== src/Examples/Services.antt =====
-- The service over the small server.
use sp1_helios.Prelude.{
  ◌≤◌, ◌<◌, ◌≡◌, ◌⊎◌, refl, arith, [], ◌∷◌, none, some, true, false, ok, text_eq, eq_of_text_eq,
  codes, starts_with, Bool-cases, inl, inr, List, Any, ◌↔◌,
}
use sp1_helios.Types.{initiated, waiting_for_finality, generating, success, errored}
use sp1_helios.Action.{pure, attempt, ◌>>=◌}
use sp1_helios.Action.Runs.{Values, Tasks, put, erase, Runs, Runs-pure}
use sp1_helios.Store.{
  global_lock_key, global_lock_key, finalized_header_key, proof_state_key, proof_id, parse_reply,
  acquire_global_lock, tag, State, find_requests_by_status,
}
use sp1_helios.Store.Runs.{locked}
use sp1_helios.Service.{
  with_global_lock, process_request_locked, process_new_finalized_header_locked,
}
use sp1_helios.Service.Lock.{with_global_lock-steals}
use sp1_helios.Service.Requests.{Refines, process_request_locked-Refines}
use sp1_helios.Service.Polling.{RoundTrip}
use sp1_helios.Api.Polling.{Polled, request_proof_handler-get_proof_handler}
use sp1_helios.Examples.Endpoints.{small_hex, api_request, parsed}
use sp1_helios.Service.Advance.{Advances}
use sp1_helios.Service.NewHeader.{process_new_finalized_header_locked-Advances}
use sp1_helios.Store.Kept.{Kept, FullScan, find_requests_by_status-Kept}
use sp1_helios.Examples.Chain.{SmallHeader, request, header_at}
use sp1_helios.Examples.Server.{
  request_key, stored_header, small_platform, small_documented, small_reachable, small_store,
  scanned_keys,
}

-- Another worker holds the global lock.
abbrev held : Values
held = put (λ j. none) (global_lock_key small_platform small_store) (9 ∷ [])

is_held : held (global_lock_key small_platform small_store) ≡ some (9 ∷ [])
unfolding global_lock_key text_eq
is_held = refl

with_global_lock-steals_example :
    Runs
      (attempt (with_global_lock small_platform small_store (λ b. pure b)) >>= λ _.
        acquire_global_lock small_platform small_store)
      held
      []
      (ok true)
      (locked
        (erase held (global_lock_key small_platform small_store))
        (global_lock_key small_platform small_store))
      []
with_global_lock-steals_example =
    with_global_lock-steals {p = small_platform} small_documented small_reachable small_store
      (λ b. pure b) (ok false) (9 ∷ []) held held [] [] is_held (Runs-pure false held [])

unknown :
    parse_reply small_platform small_platform.state_json
      (stored_header (proof_state_key small_platform small_store (proof_id small_platform request)))
    ≡ ok none
unfolding parse_reply finalized_header_key proof_state_key proof_id text_eq
unknown = refl

current :
    parse_reply small_platform small_platform.header_json
      (stored_header (finalized_header_key small_platform small_store))
    ≡ ok (some (header_at 64))
unfolding parse_reply finalized_header_key text_eq
current = refl

process_request_locked-Refines_example :
    Refines {p = small_platform} small_documented small_reachable small_store 164 64 request none
      stored_header []
      (process_request_locked small_platform small_store request true)
process_request_locked-Refines_example =
    process_request_locked-Refines {p = small_platform} small_documented small_reachable small_store
      (λ s. (tag s.status ∷ [], refl)) request none (header_at 64)
      (record { block_number = 164; state_root = 64 }) stored_header [] unknown current refl

round_trip : RoundTrip small_platform small_store request
round_trip initiated text e = ground arith
round_trip waiting_for_finality text e = ground arith
round_trip generating text e = ground arith
round_trip success text e = ground arith
round_trip errored text e = ground arith

request_proof_handler-get_proof_handler_example :
    Polled small_platform small_store small_hex request request.vkey api_request stored_header []
unfolding finalized_header_key global_lock_key text_eq
request_proof_handler-get_proof_handler_example =
    request_proof_handler-get_proof_handler {p = small_platform} small_documented small_reachable
      small_store small_hex (λ s. (tag s.status ∷ [], refl)) request request.vkey api_request none
      (header_at 64) (record { block_number = 164; state_root = 64 }) stored_header [] round_trip
      refl parsed refl refl unknown current refl

-- The request waits, and the header of slot 32 is stored.
abbrev waiting : Values
waiting =
    put (put (λ j. none) (finalized_header_key small_platform small_store) (32 ∷ []))
      (proof_state_key small_platform small_store (proof_id small_platform request)) (1 ∷ [])

old_header :
    parse_reply small_platform small_platform.header_json
      (waiting (finalized_header_key small_platform small_store))
    ≡ ok (some (header_at 32))
unfolding parse_reply finalized_header_key proof_state_key proof_id text_eq
old_header = refl

waiting_scan : FullScan small_platform small_store waiting [] (scanned_keys ∷ [])
unfolding starts_with finalized_header_key proof_state_key proof_id
waiting_scan = record {
  scanned = λ w s. refl;
  within_fuel = omega arith;
  matches = ((refl, (refl, tt)), tt);
  complete = λ k space valued. elim (Bool-cases (text_eq request_key k)) [
    | inl same ↦ inl (inl (eq_of_text_eq request_key k same))
    | inr other ↦ elim (Bool-cases (text_eq (codes "p:state:finalized_header") k)) [
      | inl same ↦ inl (inr (inl (eq_of_text_eq _ k same)))
      | inr neither ↦ absurd (ground (arith, other, neither, valued))
    ]
  ];
}

find_requests_by_status-Kept_example :
    (states : List (State small_platform)) × Runs
      (find_requests_by_status small_platform small_store waiting_for_finality)
      waiting
      []
      (ok states)
      waiting
      []
    × ((s : State small_platform)
        → Any (λ x. x ≡ s) states ↔ Kept small_platform small_store waiting_for_finality waiting s)
find_requests_by_status-Kept_example =
    find_requests_by_status-Kept {p = small_platform} small_documented small_reachable small_store
      waiting_for_finality (scanned_keys ∷ []) waiting [] waiting_scan

process_new_finalized_header_locked-Advances_example :
    (((old : SmallHeader) × (some (header_at 32) ≡ some old) × (64 ≤ old.slot))
      × Runs
          (process_new_finalized_header_locked small_platform small_store (header_at 64))
          waiting
          []
          (ok tt)
          waiting
          [])
    ⊎ (((old : SmallHeader) → some (header_at 32) ≡ some old → old.slot < 64)
        × ((v' : Values) × (t' : Tasks) × Runs
              (process_new_finalized_header_locked small_platform small_store (header_at 64))
              waiting
              []
              (ok tt)
              v'
              t'
            × Advances small_platform small_store (header_at 64) 164 (64 ∷ []) waiting [] v' t'))
process_new_finalized_header_locked-Advances_example =
    process_new_finalized_header_locked-Advances {p = small_platform} small_documented
      small_reachable small_store (λ s. (tag s.status ∷ [], refl)) (λ b. refl) (header_at 64)
      (some (header_at 32)) (record { block_number = 164; state_root = 64 }) (64 ∷ [])
      (scanned_keys ∷ []) waiting [] waiting_scan old_header refl refl
