-- ===== src/Generate/Outcome.antt =====
-- When a proof is made.
use sp1_helios.Prelude.{◌%◌, ◌≡◌, refl, ◌↔◌, Result, ok, err, arith, Text}
use sp1_helios.Helios.{Core}
use sp1_helios.Program.{ProofInputs}
use sp1_helios.Inputs.{Failure}
use sp1_helios.Generate.{prove_inputs}

module _ (h : Core) {O : Type 0} (generate_proof : ProofInputs h.spec → Result Text O) where
  open h use {spec, beacon_slot}

  -- A proof is made exactly from gathered inputs whose finality update's finalized slot is a
  -- multiple of 32, by the backend.
  pub prove_inputs_iff :
      (inputs : Result Failure (ProofInputs spec)) (proof : O)
      → (prove_inputs h generate_proof inputs ≡ ok proof) ↔ (
          (i : ProofInputs spec) × (inputs ≡ ok i)
          × (beacon_slot (h.finalized_header i.finality_update) % 32 ≡ 0)
          × (generate_proof i ≡ ok proof))
  unfolding prove_inputs
  prove_inputs_iff (err e) proof = (λ q. absurd (ground arith), λ q. ground (arith, q.1))
  prove_inputs_iff (ok i) proof =
      (λ q. (i, refl, ground arith, ground arith), λ q. ground (arith, q.1, q.2, q.3))
