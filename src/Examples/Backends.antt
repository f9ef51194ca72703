-- ===== src/Examples/Backends.antt =====
-- A backend whose proofs are a byte, on the small chain.
use sp1_helios.Prelude.{
  ◌⊎◌, ◌<◌, map, List, ◌%◌, ◌≡◌, refl, sym, ap, ◌∙◌, [], ◌∷◌, some, none, Option, Result, ok, err,
  Text, text_eq,
}
use sp1_helios.Types.{VerifiedStorageSlot, Sp1HeliosProofData}
use sp1_helios.Program.{
  ProofInputs, ProofOutputs, main, main_bytes, Panic, bad_input, push_slots, push_slot,
}
use sp1_helios.Program
use sp1_helios.Client.Time.{expected_current_slot}
use sp1_helios.Inputs.{Failure, get_proof_inputs_once}
use sp1_helios.Inputs.Preflight.{Answers, Skipped}
use sp1_helios.Generate.{prove_inputs}
use sp1_helios.Backend.{Sp1, Sp1Proof, generate_proof}
use sp1_helios.Backend.EndToEnd.{ReadsBack, RunsGuest, proved_public_values}
use sp1_helios.Examples.Chain.{
  small_core, small_spec, small_trie, small_config, small_attempt, request, inputs,
}
use sp1_helios.Examples.Proofs.{small_majority, small-Adopts, gathered}

abbrev small_proof : Sp1Proof
small_proof = record { bytes = 9 ∷ []; public_values = 64 ∷ [] }

abbrev small_sp1 : Sp1 small_spec
small_sp1 = record {
  Stdin = List Text;
  new_stdin = [];
  write_slice = λ stdin slice. slice ∷ stdin;
  to_cbor = λ i. ok (1 ∷ []);
  prove = λ stdin. ok small_proof;
  hex_encode = λ bytes. 48 ∷ bytes;
  verifying_key = 21 ∷ [];
}

abbrev from_cbor : Text → Option (ProofInputs small_spec)
from_cbor encoded = some inputs

abbrev abi_encode : ProofOutputs → Text
abi_encode o = o.new_head ∷ []

abbrev stored : Sp1HeliosProofData
stored = record { proof = 48 ∷ 9 ∷ []; public_values = 48 ∷ 64 ∷ [] }

made :
    prove_inputs small_core
      (generate_proof small_sp1)
      (get_proof_inputs_once small_core small_trie small_config request small_attempt)
    ≡ ok stored
unfolding prove_inputs generate_proof
made = ap (prove_inputs small_core (generate_proof small_sp1)) gathered

committed :
    (slice : Text) → main_bytes small_core small_trie from_cbor abi_encode slice ≡ ok (64 ∷ [])
unfolding main_bytes Program.verify_storage_slot_proofs push_slots push_slot text_eq
committed slice = refl

reads :
    (i : ProofInputs small_spec)
    → get_proof_inputs_once small_core small_trie small_config request small_attempt ≡ ok i
    → ReadsBack small_core small_trie small_sp1 from_cbor abi_encode i
reads i g encoded e =
    ap (λ (r : Result Failure (ProofInputs small_spec)). elim r [ ok x ↦ some x | err f ↦ none ])
      (sym gathered ∙ g)

runs : RunsGuest small_core small_trie small_sp1 from_cbor abi_encode
runs slice proof e =
    committed slice
    ∙ ap
        (λ (r : Result Text Sp1Proof). elim r as (λ x. Result Panic Text) [
          | ok y ↦ ok y.public_values
          | err f ↦ err bad_input
        ])
        e

proved_public_values_example :
    (i : ProofInputs small_spec) × (o : ProofOutputs) × (main small_core small_trie i ≡ ok o)
    × (stored.public_values ≡ small_sp1.hex_encode (abi_encode o))
    × ((Answers small_core small_trie request i o × (o.new_head % 32 ≡ 0))
        ⊎ ((s : Skipped small_core small_trie small_majority request i) × (o.new_head
              ≡ s.middle.finalized_header.slot)
            × (o.prev_head < o.new_head)
            × (map (λ (v : VerifiedStorageSlot). v.key) o.slots ≡ request.src_chain_storage_slots)))
unfolding expected_current_slot
proved_public_values_example =
    proved_public_values small_core small_trie small_sp1 from_cbor abi_encode small_majority
      small_config 70 request small_attempt stored reads runs small-Adopts (λ s b. refl)
      (λ n. refl, (λ n. refl, tt)) made
