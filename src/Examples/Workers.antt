-- ===== src/Examples/Workers.antt =====
-- Workers and orphaned requests on the small server.
use sp1_helios.Prelude.{
  refl, arith, text_eq, eq_of_text_eq, starts_with, Bool-cases, inl, inr, [], ◌∷◌, none, ok,
}
use sp1_helios.Types.{ProofId}
use sp1_helios.Action.Runs.{Values, Tasks, Runs, put}
use sp1_helios.Store.{
  proof_state_key, proof_id, proof_generation_lock_key, acquire_proof_generation_lock,
  try_acquire_lock, extend_proof_generation_lock,
}
use sp1_helios.Action.{◌>>=◌, query, attempt, spawn, pure}
use sp1_helios.Store.Kept.{FullScan}
use sp1_helios.Service.{restart_orphaned_proofs, spawn_if_lock_acquired, spawn_on}
use sp1_helios.Service.Orphans.{Restarts, restart_orphaned_proofs-Restarts}
use sp1_helios.Service.Workers.{
  Timed, Steps, here, next, starts, extends, passes, after_start, after_extension, after_pass,
}
use sp1_helios.Service.Workers.Guarded.{Guarded}
use sp1_helios.Service.Workers.Leases.{Steps-Guarded}
use sp1_helios.Examples.Clock.{
  clocked_platform, clocked_documented, clocked_reachable, clocked_expiring,
}
use sp1_helios.Examples.Chain.{request}
use sp1_helios.Examples.Server.{
  small_platform, small_documented, small_reachable, small_store, scanned_keys, request_key,
}

-- The request is generating, and nobody holds its lock.
abbrev orphaned : Values
orphaned =
    put (λ j. none) (proof_state_key small_platform small_store (proof_id small_platform request))
      (2 ∷ [])

orphaned_scan : FullScan small_platform small_store orphaned [] (scanned_keys ∷ [])
unfolding starts_with proof_state_key proof_id
orphaned_scan = record {
  scanned = λ w s. refl;
  within_fuel = omega arith;
  matches = ((refl, (refl, tt)), tt);
  complete = λ k space valued. elim (Bool-cases (text_eq request_key k)) [
    | inl same ↦ inl (inl (eq_of_text_eq request_key k same))
    | inr other ↦ absurd (ground (arith, other, valued))
  ];
}

restart_orphaned_proofs-Restarts_example :
    (v' : Values) × (t' : Tasks) × Runs
      (restart_orphaned_proofs small_platform small_store)
      orphaned
      []
      (ok tt)
      v'
      t'
    × Restarts small_platform small_store orphaned [] v' t'
restart_orphaned_proofs-Restarts_example =
    restart_orphaned_proofs-Restarts {p = small_platform} small_documented small_reachable
      small_store (scanned_keys ∷ []) orphaned [] orphaned_scan

-- The request is generating, nobody holds its lock, and no key expires.
abbrev first : Timed clocked_platform small_store
first = record {
  world = record { server = record { values = orphaned; times = λ k. none }; spawned = [] };
  granted = λ k. 0;
}

abbrev id : ProofId
id = proof_id clocked_platform request

abbrev started : Timed clocked_platform small_store
started = after_start clocked_platform small_store first request

abbrev extended : Timed clocked_platform small_store
extended =
    after_extension clocked_platform small_store
      (after_pass clocked_platform small_store clocked_expiring started 900) id 21000

abbrev last : Timed clocked_platform small_store
last =
    after_start clocked_platform small_store
      (after_pass clocked_platform small_store clocked_expiring extended 20000) request

-- A worker starts the request's task, which extends its lock after 900 milliseconds. 20 seconds
-- later another worker tries to start it again.
steps : Steps clocked_platform small_store clocked_expiring first last
unfolding spawn_if_lock_acquired ◌>>=◌ acquire_proof_generation_lock try_acquire_lock query attempt
    spawn_on spawn text_eq extend_proof_generation_lock pure proof_state_key
    proof_generation_lock_key proof_id
steps =
    next
      (next
        (next (next (next here (starts request)) (passes 900 (omega arith, tt)))
          (extends id 21000 (omega arith)))
        (passes 20000 (omega arith, tt)))
      (starts request)

Steps-Guarded_example : Guarded clocked_platform small_store clocked_expiring last
Steps-Guarded_example =
    Steps-Guarded {p = clocked_platform} clocked_documented clocked_reachable small_store
      clocked_expiring steps (record { exclusive = record { held = tt; apart = tt }; lasting = tt })
