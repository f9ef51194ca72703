-- ===== src/Backend.antt =====
-- zk-api/src/proof_backends/sp1.rs: the SP1 backend. SP1's prover, serde_cbor and the hex encoder
-- are parameters. An error is its outermost text.
pub mod EndToEnd
use sp1_helios.Prelude.{List, [], ◌∷◌, ◌++◌, Result, ok, err, map_err, ◌>>=◌, Text, codes}
use sp1_helios.Types.{Sp1HeliosProofData}
use sp1_helios.Helios.{Spec}
use sp1_helios.Program.{ProofInputs}

-- `SP1ProofWithPublicValues`, by what the source reads of it.
pub record Sp1Proof : Type 0 where
  pub bytes : Text
  pub public_values : Text

-- `SP1Stdin` with its `new` and `write_slice`; `prove` runs the prover on the guest program with the
-- backend's key, in Groth16 mode.
pub record Sp1 (s : Spec) : Type 1 where
  pub Stdin : Type 0
  pub new_stdin : Stdin
  pub write_slice : Stdin → Text → Stdin
  pub to_cbor : ProofInputs s → Result Text Text
  pub prove : Stdin → Result Text Sp1Proof
  pub hex_encode : Text → Text
  pub verifying_key : Text

module _ {s : Spec} (sp1 : Sp1 s) where
  open sp1 use {Stdin, new_stdin, write_slice}

  unfoldable pub stdin_from_inputs : ProofInputs s → Result Text Stdin
  stdin_from_inputs inputs =
      map_err (λ e. codes "Failed to serialize ProofInputs to CBOR") (sp1.to_cbor inputs)
      >>= λ encoded_proof_inputs. ok (write_slice new_stdin encoded_proof_inputs)

  unfoldable pub run_sp1_prover : Stdin → Result Text Sp1Proof
  run_sp1_prover stdin = map_err (λ e. codes "SP1 prover run failed: " ++ e) (sp1.prove stdin)

  unfoldable pub format_output : Sp1Proof → Sp1HeliosProofData
  format_output proof_with_values = record {
    proof = sp1.hex_encode proof_with_values.bytes;
    public_values = sp1.hex_encode proof_with_values.public_values;
  }

  unfoldable pub generate_proof : ProofInputs s → Result Text Sp1HeliosProofData
  unfolding stdin_from_inputs run_sp1_prover format_output
  generate_proof inputs = stdin_from_inputs inputs >>= λ stdin.
      map_err (λ e. codes "Failed to run SP1 prover") (run_sp1_prover stdin)
      >>= λ proof_with_values. ok (format_output proof_with_values)

  unfoldable pub vkey_digest : Text
  vkey_digest = sp1.verifying_key
