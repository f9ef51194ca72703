-- ===== src/Examples/Proofs.antt =====
-- The guest program, and the inputs that are gathered for it.
use sp1_helios.Prelude.{
  Bool, true, inl, inr, ℕ, ◌≡◌, refl, ap, zero, Text, ◌⊎◌, List, [], ◌∷◌, map, some, ok, Result,
  map_err, suc, ◌%◌, text_eq, arith,
}
use sp1_helios.Types.{VerifiedStorageSlot, StorageSlot}
use sp1_helios.Storage
use sp1_helios.Storage.{StorageError, check_slots, check_slot, zip_slots, build}
use sp1_helios.Storage.Verify.{StorageValid, published, verify_storage_slot_proofs_iff, build-keys}
use sp1_helios.Program
use sp1_helios.Program.{
  ProofInputs, ProofOutputs, main, apply_updates, finish, outputs_of, push_slots, push_slot,
}
use sp1_helios.Program.Accepts.{Accepts, main_iff}
use sp1_helios.Program.Copies.{panic_of, verify-eq-copy}
use sp1_helios.Program.FreeInput.{with_next, main-with_next}
use sp1_helios.Client.{get_proof_inputs}
use sp1_helios.Client.Time.{expected_current_slot}
use sp1_helios.Client.Single.{sync_to_chain_single_rpc, bootstrap_single_rpc}
use sp1_helios.Client.Updates.{get_updates_single_rpc}
use sp1_helios.Client.Select.{select, better}
use sp1_helios.Execution.{get_proof}
use sp1_helios.Inputs
use sp1_helios.Inputs.{Failure, Attempt, get_proof_inputs_once}
use sp1_helios.Inputs.Preflight.{Adopts, Answered, Skipped, get_proof_inputs_once-main}
use sp1_helios.Inputs.Attempts.{once}
use sp1_helios.Generate.{prove_inputs}
use sp1_helios.Generate.Outcome.{prove_inputs_iff}
use sp1_helios.Examples.Chain.{
  logged, SmallHeader, small_core, small_trie, small_config, small_attempt, request, inputs,
  contract, response, outputs,
}

pub gathered :
    get_proof_inputs_once small_core small_trie small_config request small_attempt ≡ ok inputs
unfolding get_proof_inputs_once get_proof_inputs sync_to_chain_single_rpc bootstrap_single_rpc
    get_updates_single_rpc select better get_proof build Storage.verify_storage_slot_proofs
    check_slots check_slot text_eq
gathered = refl

abbrev pub small_majority : SmallHeader → Bool
small_majority u = true

pub small-Adopts : Adopts small_core small_trie small_majority
small-Adopts = record {
  adopts = λ s u many later. ground (arith, later);
  skips = λ s u why. elim why [
    | inl few ↦ absurd (ground (arith, few))
    | inr not_later ↦ ground (arith, not_later)
  ];
}

get_proof_inputs_once-main_example :
    Answered small_core small_trie request inputs
    ⊎ Skipped small_core small_trie small_majority request inputs
unfolding expected_current_slot
get_proof_inputs_once-main_example =
    get_proof_inputs_once-main small_core small_trie small_majority small_config 70 request
      small_attempt inputs small-Adopts (λ s b. refl) (λ n. refl, (λ n. refl, tt)) gathered

pub accepted : main small_core small_trie inputs ≡ ok outputs
unfolding main Program.verify_storage_slot_proofs push_slots push_slot text_eq
accepted = refl

main_iff_example : Accepts small_core small_trie inputs outputs
main_iff_example = (main_iff small_core small_trie inputs outputs).0 accepted

-- A backend whose proof of any inputs is 1.
abbrev generate_proof : ProofInputs small_core.spec → Result Text ℕ
generate_proof i = ok 1

made :
    prove_inputs small_core generate_proof
      (get_proof_inputs_once small_core small_trie small_config request small_attempt)
    ≡ ok 1
unfolding prove_inputs
made = ap (prove_inputs small_core generate_proof) gathered

abbrev gathered_inputs : Result Failure (ProofInputs small_core.spec)
gathered_inputs = ok inputs

prove_inputs_iff_example :
    (i : ProofInputs small_core.spec) × (gathered_inputs ≡ ok i)
    × (small_core.beacon_slot (small_core.finalized_header i.finality_update) % 32 ≡ 0)
    × (generate_proof i ≡ ok 1)
unfolding prove_inputs
prove_inputs_iff_example = (prove_inputs_iff small_core generate_proof gathered_inputs 1).0 refl

-- Under another state root both copies refuse the account.
verify-eq-copy_example :
    Program.verify_storage_slot_proofs small_trie 63 contract
    ≡ map_err panic_of (Storage.verify_storage_slot_proofs small_trie 63 contract)
verify-eq-copy_example = verify-eq-copy small_trie 63 contract

abbrev verified : List VerifiedStorageSlot
verified = record { key = 10; value = 77; contract_address = 5 } ∷ []

verify-contract : Storage.verify_storage_slot_proofs small_trie 64 contract ≡ ok verified
unfolding Storage.verify_storage_slot_proofs check_slots check_slot text_eq
verify-contract = refl

verify_storage_slot_proofs_iff_example :
    StorageValid small_trie 64 contract
    × (verified ≡ map (published contract.address) contract.storage_slots)
verify_storage_slot_proofs_iff_example =
    (verify_storage_slot_proofs_iff small_trie 64 contract verified).0 verify-contract

main-with_next_example :
    main small_core small_trie (with_next small_core inputs (some 7))
    ≡ main small_core small_trie inputs
main-with_next_example = main-with_next small_core small_trie inputs (some 7)

build-keys_example : map (λ (s : StorageSlot). s.key) contract.storage_slots ≡ 10 ∷ []
unfolding build
build-keys_example = build-keys (10 ∷ []) response contract refl

-- Only the last of three attempts reaches endpoints.
abbrev attempts : ℕ → Attempt small_core
attempts zero = small_attempt
attempts (suc n) = record { bootstraps = []; rpcs = logged []; providers = [] }

abbrev answer : ℕ → Result Failure (ProofInputs small_core.spec)
answer = once small_core small_trie small_config request attempts
