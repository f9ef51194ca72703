-- ===== src/Inputs.antt =====
-- How `ProofService` gathers the inputs of a proof: `get_proof_inputs` and `get_proof_inputs_once`
-- of zk-api/src/proof_service.rs.
pub mod Traced
pub mod Trace
pub mod Attempts
pub mod Preflight
use sp1_helios.Prelude.{ℕ, zero, suc, List, [], ◌∷◌, Result, ok, err, ok_or, map_err, ◌>>=◌, Text}
use sp1_helios.Types.{ProofRequest}
use sp1_helios.Helios.{Core}
use sp1_helios.Storage.{Trie, StorageError, build}
use sp1_helios.Program.{ProofInputs}
use sp1_helios.Client.Time.{Config}
use sp1_helios.Client.Rpc.{Endpoints, Endpoint, ClientError}
use sp1_helios.Client
use sp1_helios.Client.{ConsensusProofInputs}
use sp1_helios.Execution
use sp1_helios.Execution.{Provider, ProxyError}

-- The `anyhow` errors of the service.
pub data Failure : Type 0 where
  consensus : ClientError → Failure
  no_execution_header : Failure
  execution : ProxyError → Failure
  storage : StorageError → Failure
  attempts_exhausted : ℕ → Failure → Failure
  slot_not_divisible : ℕ → Failure
  prover : Text → Failure

-- The endpoints' and providers' behaviour during one attempt: those of `bootstrap` and of the
-- execution proxy in the order in which they finish.
pub record Attempt (h : Core) : Type 0 where
  pub bootstraps : List (Endpoint h.spec)
  pub rpcs : Endpoints h.spec
  pub providers : List Provider

module _ (h : Core) (t : Trie) where
  open h use {spec}

  -- `get_proof_inputs_once`, from the consensus part on.
  unfoldable pub add_storage_proof :
      ProofRequest → List Provider → ConsensusProofInputs h → Result Failure (ProofInputs spec)
  add_storage_proof request providers consensus_inputs =
      ok_or (h.execution (h.finalized_header consensus_inputs.finality_update)) no_execution_header
      >>= λ header.
          map_err execution (
            Execution.get_proof t request.src_chain_contract_address request.src_chain_storage_slots
              header.block_number header.state_root providers)
          >>= λ proof.
              map_err storage (build request.src_chain_storage_slots proof) >>= λ contract_storage.
              ok (record {
                sync_committee_updates = consensus_inputs.sync_committee_updates;
                finality_update = consensus_inputs.finality_update;
                expected_current_slot = consensus_inputs.expected_current_slot;
                store = consensus_inputs.initial_store;
                genesis_root = consensus_inputs.config.genesis_root;
                forks = consensus_inputs.config.forks;
                contract_storage_slots = contract_storage;
              })

  unfoldable pub get_proof_inputs_once :
      Config spec → ProofRequest → Attempt h → Result Failure (ProofInputs spec)
  unfolding add_storage_proof
  get_proof_inputs_once config request a =
      map_err consensus (
        Client.get_proof_inputs h config request.dst_chain_contract_from_header a.bootstraps a.rpcs)
      >>= λ inputs. add_storage_proof request a.providers inputs

abbrev pub max_get_proof_inputs_attempts : ℕ
max_get_proof_inputs_attempts = 3

-- The retry loop, with the number of attempts left after this one. It sleeps between attempts.
-- `once n` is the attempt with n more to come.
unfoldable pub retry : {A : Type 0} → (ℕ → Result Failure A) → ℕ → Result Failure A
retry once zero = map_err (attempts_exhausted max_get_proof_inputs_attempts) (once 0)
retry once (suc n) =
    let again = retry once n in elim (once (suc n)) [ ok inputs ↦ ok inputs | err e ↦ again ]

-- `get_proof_inputs`.
unfoldable pub get_proof_inputs :
    (h : Core)
    → Trie
    → Config h.spec
    → ProofRequest
    → (ℕ → Attempt h)
    → Result Failure (ProofInputs h.spec)
unfolding retry get_proof_inputs_once
get_proof_inputs h t config request attempts =
    retry (λ n. get_proof_inputs_once h t config request (attempts n)) 2
