-- ===== src/Backend/EndToEnd.antt =====
-- From a request to the public values of its proof: the service, the backend and the guest program.
use sp1_helios.Prelude.{
  ℕ, Bool, ◌⊎◌, ◌<◌, map, ◌%◌, ◌≡◌, sym, ap, ◌∙◌, Option, some, none, ok, arith, ◌>>=◌, All, Text,
  Result-cases, inl, inr,
}
use sp1_helios.Types.{ProofRequest, Sp1HeliosProofData, VerifiedStorageSlot}
use sp1_helios.Helios.{Core, LightClientStore}
use sp1_helios.Storage.{Trie}
use sp1_helios.Program.{ProofInputs, ProofOutputs, main, main_bytes}
use sp1_helios.Client.Time.{Config}
use sp1_helios.Inputs.{Attempt, get_proof_inputs_once}
use sp1_helios.Inputs.Traced.{Steady}
use sp1_helios.Inputs.Preflight.{
  Adopts, Answers, Skipped, Skipped-outputs, get_proof_inputs_once-main,
}
use sp1_helios.Generate.{prove_inputs}
use sp1_helios.Generate.Outcome.{prove_inputs_iff}
use sp1_helios.Backend.{Sp1, Sp1Proof, format_output, generate_proof}

module _ (h : Core) (t : Trie) (sp1 : Sp1 h.spec) (from_cbor : Text → Option (ProofInputs h.spec))
    (abi_encode : ProofOutputs → Text) where
  open h use {spec, beacon_slot}

  -- What serde_cbor writes of these inputs, it reads back.
  abbrev pub ReadsBack : ProofInputs spec → Type 0
  ReadsBack i = (encoded : Text) → sp1.to_cbor i ≡ ok encoded → from_cbor encoded ≡ some i

  -- The prover runs the guest program: the public values of a proof are what it commits on the slice.
  abbrev pub RunsGuest : Type 0
  RunsGuest =
      (slice : Text) (proof : Sp1Proof)
      → sp1.prove (sp1.write_slice sp1.new_stdin slice) ≡ ok proof
      → main_bytes h t from_cbor abi_encode slice ≡ ok proof.public_values

  main_bytes-ok :
      (i : ProofInputs spec) (slice out : Text)
      → from_cbor slice ≡ some i
      → main_bytes h t from_cbor abi_encode slice ≡ ok out
      → (o : ProofOutputs) × (main h t i ≡ ok o) × (out ≡ abi_encode o)
  unfolding main_bytes
  main_bytes-ok i slice out r e = elim (Result-cases (main h t i)) [
    | inr (x, q) ↦ absurd (ground (arith, committed, q))
    | inl (o, q) ↦ (o, q, ground (arith, committed, q))
  ]
    where
      committed : ◌>>=◌ (main h t i) (λ o. ok (abi_encode o)) ≡ ok out
      committed = rw r at e

  generate_proof-main :
      (i : ProofInputs spec) (d : Sp1HeliosProofData)
      → ReadsBack i
      → RunsGuest
      → generate_proof sp1 i ≡ ok d
      → (o : ProofOutputs) × (main h t i ≡ ok o) × (d.public_values ≡ sp1.hex_encode (abi_encode o))
  unfolding generate_proof
  generate_proof-main i d reads runs e = elim (Result-cases (sp1.to_cbor i)) [
    | inr (x, q) ↦ absurd (ground (arith, e, q))
    | inl (slice, q) ↦ elim (Result-cases (sp1.prove (sp1.write_slice sp1.new_stdin slice))) [
      | inr (x, q') ↦ absurd (ground (arith, e, q, q'))
      | inl (proof, q') ↦
          let formatted : format_output sp1 proof ≡ d = ground (arith, e, q, q') in
          let (o, accepted, committed) =
            main_bytes-ok i slice proof.public_values (reads slice q) (runs slice proof q') in
          (
            o,
            accepted,
            sym (ap (λ (x : Sp1HeliosProofData). x.public_values) formatted)
                ∙ ap sp1.hex_encode committed,
          )
    ]
  ]

  -- Where serde_cbor reads back what it writes, the prover's public values are what the guest
  -- commits, and the conditions of `get_proof_inputs_once-main` hold: the public values that the
  -- service stores for a request are the encoded outputs of an accepted run of the guest program.
  -- If helios adopts the finality update, then their head is a multiple of 32 and past the head
  -- before, and their slots are the request's. If helios skips it, then the head is that of the
  -- updates, past the head before, and the slots are the request's too.
  pub proved_public_values :
      (has_majority : h.FinalityUpdate → Bool) (config : Config spec) (slot : ℕ)
      (request : ProofRequest) (a : Attempt h) (d : Sp1HeliosProofData)
      → ((i : ProofInputs spec) → get_proof_inputs_once h t config request a ≡ ok i → ReadsBack i)
      → RunsGuest
      → Adopts h t has_majority
      → ((s : LightClientStore spec) (b : h.Bootstrap)
          → (h.apply_bootstrap s b).next_sync_committee ≡ none)
      → All (Steady h config slot) a.rpcs.each
      → prove_inputs h (generate_proof sp1) (get_proof_inputs_once h t config request a) ≡ ok d
      → (i : ProofInputs spec) × (o : ProofOutputs) × (main h t i ≡ ok o)
        × (d.public_values ≡ sp1.hex_encode (abi_encode o))
        × ((Answers h t request i o × (o.new_head % 32 ≡ 0))
            ⊎ ((s : Skipped h t has_majority request i) × (o.new_head
                  ≡ beacon_slot s.middle.finalized_header)
                × (o.prev_head < o.new_head)
                × (map (λ (v : VerifiedStorageSlot). v.key) o.slots
                    ≡ request.src_chain_storage_slots)))
  proved_public_values has_majority config slot request a d reads runs law fresh steady e =
      let (i, gathered, checkpoint, made) = (prove_inputs_iff h (generate_proof sp1) _ d).0 e in
      let (o', accepted', encoded) = generate_proof-main i d (reads i gathered) runs made in
      elim (get_proof_inputs_once-main h t has_majority config slot request a i law fresh steady
        gathered) [
          | inl (o, accepted, answers) ↦
              let same : o' ≡ o = ground (arith, accepted, accepted') in
              (
                i,
                o,
                accepted,
                encoded ∙ ap (λ x. sp1.hex_encode (abi_encode x)) same,
                inl (answers, ap (λ (n : ℕ). n % 32) answers.head ∙ checkpoint),
              )
          | inr skipped ↦
              let (head, past, keys) =
                Skipped-outputs h t has_majority request i skipped o' accepted' in
              (i, o', accepted', encoded, inr (skipped, head, past, keys))
        ]
