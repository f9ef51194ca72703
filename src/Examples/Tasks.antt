-- ===== src/Examples/Tasks.antt =====
-- The end of a proof generation task on the small server.
use sp1_helios.Prelude.{codes, ◌≡◌, refl, [], ◌∷◌, none, true, err, Text, Result, text_eq, is_some}
use sp1_helios.Action.{World}
use sp1_helios.Action.Runs.{Values, Shows, put, erase}
use sp1_helios.Store.{proof_id, proof_state_key, proof_generation_lock_key}
use sp1_helios.Inputs.{Failure, slot_not_divisible}
use sp1_helios.Generate.{generate_and_store_proof, updated_proof_state}
use sp1_helios.Generate.Stored.{generate_and_store_proof-Shows}
use sp1_helios.Examples.Chain.{request}
use sp1_helios.Examples.Server.{small_platform, small_documented, small_reachable, small_store}

abbrev lock_held : Values
lock_held =
    put (λ j. none)
      (proof_generation_lock_key small_platform small_store (proof_id small_platform request))
      (codes "locked")

abbrev outcome : Result Failure Text
outcome = err (slot_not_divisible 65)

holds :
    is_some (
      lock_held
        (proof_generation_lock_key small_platform small_store (proof_id small_platform request)))
    ≡ true
unfolding proof_generation_lock_key proof_id text_eq
holds = refl

-- The outcome is a failure, which is stored as errored after two ticks of the lock task.
generate_and_store_proof-Shows_example :
    (w' : World small_platform) × (generate_and_store_proof small_platform small_store
        (λ e. [])
        request
        (proof_id small_platform request)
        outcome
        2
        (1 ∷ 3 ∷ [])
        (record { server = lock_held; spawned = [] })
      ≡ (true, w'))
    × Shows w'
        (erase
          (put lock_held
            (proof_state_key small_platform small_store (proof_id small_platform request))
            (4 ∷ []))
          (proof_generation_lock_key small_platform small_store (proof_id small_platform request)))
        []
unfolding updated_proof_state
generate_and_store_proof-Shows_example =
    generate_and_store_proof-Shows {p = small_platform} small_documented small_reachable small_store
      (λ e. []) request (proof_id small_platform request) outcome 2 (1 ∷ 3 ∷ []) (4 ∷ []) lock_held
      [] (record { server = lock_held; spawned = [] }) refl holds
      (record { same_values = λ j. refl; same_tasks = refl })
