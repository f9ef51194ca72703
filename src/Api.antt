-- ===== src/Api.antt =====
-- zk-api/src/api.rs: the HTTP handlers over the service. axum's extractors and JSON are left out: a
-- handler takes the parsed body or path, and gives a status code with a body. alloy's `from_str`
-- and the backend's `vkey_digest` are parameters.
pub mod Handlers
pub mod Vkey
pub mod Polling
use sp1_helios.Prelude.{
  codes, ℕ, List, [], ◌∷◌, ◌++◌, Option, none, some, Bool, true, false, Result, ok, err, ok_or,
  ◌==◌, Text, if◌then◌else◌,
}
use sp1_helios.Prelude
use sp1_helios.Types.{
  B256, Address, ProofRequest, ProofId, ProofRequestState, ProofRequestStatus, ProofServiceError,
  initiated, waiting_for_finality, generating, redis_error, lock_contention, not_found,
  serialization_error, proof_generation_failed, bad_request, vkey_mismatch, internal,
}
use sp1_helios.Types
use sp1_helios.Redis.{Platform}
use sp1_helios.Action.{Action, World, pure, raise, lift, ◌>>=◌}
use sp1_helios.Store.{RedisStore, State, get_proof_state, read_finalized_header}
use sp1_helios.Service.{request_proof}

pub data ProofStatusResponse : Type 0 where
  pending success errored : ProofStatusResponse

-- `From<ProofRequestStatus>`.
unfoldable pub from_status : ProofRequestStatus → ProofStatusResponse
from_status initiated = pending
from_status waiting_for_finality = pending
from_status generating = pending
from_status ProofRequestStatus.success = success
from_status ProofRequestStatus.errored = errored

pub record ApiProofRequest : Type 0 where
  pub src_chain_contract_address : Text
  pub src_chain_storage_slots : List Text
  pub src_chain_block_number : ℕ
  pub dst_chain_contract_from_head : ℕ
  pub dst_chain_contract_from_header : Text
  pub vkey : Text

pub record ProofRequestResponse : Type 0 where
  pub proof_id : Text
  pub status : ProofStatusResponse

pub record ProofStateResponse (ProofOutput : Type 0) : Type 0 where
  pub proof_id : Text
  pub status : ProofStatusResponse
  pub update_calldata : Option ProofOutput
  pub error_message : Option Text

pub record FinalizedHeaderResponse : Type 0 where
  pub slot : ℕ
  pub checkpoint : Text

-- alloy's `Address::from_str`, `B256::from_str` and `B256::to_string`.
pub record Hex : Type 0 where
  pub parse_address : Text → Option Address
  pub parse_b256 : Text → Option B256
  pub print_b256 : B256 → Text

module _ (x : Hex) where
  -- `collect()` stops at the first slot that does not parse.
  unfoldable pub parse_slots : List Text → Option (List B256)
  parse_slots [] = some []
  parse_slots (s ∷ ss) =
      let rest = parse_slots ss in
      elim (x.parse_b256 s) [
        | none ↦ none
        | some slot ↦ elim rest [ none ↦ none | some slots ↦ some (slot ∷ slots) ]
      ]

  unfoldable pub try_from : ApiProofRequest → Result ProofServiceError ProofRequest
  unfolding parse_slots
  try_from req =
      Prelude.◌>>=◌
        (ok_or (x.parse_address req.src_chain_contract_address)
          (bad_request (codes "Invalid contract address format")))
        λ address.
          Prelude.◌>>=◌
            (ok_or (parse_slots req.src_chain_storage_slots)
              (bad_request (codes "Invalid storage slot format")))
            λ slots.
              Prelude.◌>>=◌
                (ok_or (x.parse_b256 req.dst_chain_contract_from_header)
                  (bad_request (codes "Invalid header format")))
                λ header.
                  Prelude.◌>>=◌
                    (ok_or (x.parse_b256 req.vkey) (bad_request (codes "Invalid vkey format")))
                    λ vkey. ok (record {
                      src_chain_contract_address = address;
                      src_chain_storage_slots = slots;
                      src_chain_block_number = req.src_chain_block_number;
                      dst_chain_contract_from_head = req.dst_chain_contract_from_head;
                      dst_chain_contract_from_header = header;
                      vkey = vkey;
                    })

-- `IntoResponse for ProofServiceError`: the status code and the text under "error".
unfoldable pub into_response : (B256 → Text) → ProofServiceError → ℕ × Text
into_response to_hex (redis_error e) = (500, codes "Redis error: " ++ e)
into_response to_hex (lock_contention id) =
    (409, codes "Proof request " ++ (to_hex id.hash ++ codes " is already being processed"))
into_response to_hex (not_found id) =
    (404, codes "Proof request " ++ (to_hex id.hash ++ codes " not found"))
into_response to_hex (serialization_error e) = (500, codes "Serialization error: " ++ e)
into_response to_hex (proof_generation_failed id msg) =
    (500, codes "Proof generation failed: " ++ msg)
into_response to_hex (bad_request msg) = (400, codes "Bad request: " ++ msg)
into_response to_hex (vkey_mismatch msg) = (422, codes "Vkey mismatch: " ++ msg)
into_response to_hex (internal msg) = (500, codes "Internal error: " ++ msg)

module _ (p : Platform) (r : RedisStore) (x : Hex) where
  open p use {spec, ProofOutput}

  unfoldable pub request_proof_handler :
      B256 → ApiProofRequest → Action p (ℕ × ProofRequestResponse)
  unfolding from_status
  request_proof_handler service_vkey api_request = do
    request ← lift (try_from x api_request)
    let accepted = request_proof p r request >>= λ res.
        pure (202, record { proof_id = p.to_hex (res.0.hash); status = from_status (res.1) })
    if request.vkey == service_vkey
        then accepted
        else raise (
            vkey_mismatch (
              codes "Requested vkey "
              ++ (x.print_b256 request.vkey
                  ++ (codes " does not match service vkey " ++ x.print_b256 service_vkey))))

  unfoldable pub proof_response :
      ProofId → Option (State p) → Action p (ℕ × ProofStateResponse ProofOutput)
  unfolding from_status
  proof_response id none = raise (not_found id)
  proof_response id (some state) = pure (
    200,
    record {
      proof_id = p.to_hex id.hash;
      status = from_status state.status;
      update_calldata = state.proof_data;
      error_message = state.error_message;
    },
  )

  unfoldable pub get_proof_handler : Text → Action p (ℕ × ProofStateResponse ProofOutput)
  unfolding proof_response
  get_proof_handler proof_id_hex = do
    hash ← lift (
        ok_or (x.parse_b256 proof_id_hex)
          (bad_request (codes "Invalid proof ID format: " ++ proof_id_hex)))
    state ← get_proof_state p r (record { hash = hash })
    proof_response (record { hash = hash }) state

  -- `ProofService::get_finalized_header_details`.
  unfoldable pub header_details : Option spec.Header → Option FinalizedHeaderResponse
  header_details none = none
  header_details (some header) = some (record {
    slot = spec.beacon_slot header;
    checkpoint = x.print_b256 (spec.beacon_root header);
  })

  unfoldable pub get_finalized_header_handler : Action p (ℕ × FinalizedHeaderResponse)
  unfolding header_details
  get_finalized_header_handler = do
    header ← read_finalized_header p r
    details ←
        lift
          (ok_or (header_details header) (internal (codes "Finalized header not found in Redis.")))
    pure (200, details)

  -- What a client of a handler sees.
  unfoldable pub status_code : {A : Type 0} → Result ProofServiceError (ℕ × A) → ℕ
  unfolding into_response
  status_code (ok res) = res.0
  status_code (err e) = (into_response p.to_hex e).0

pub record VkeyResponse : Type 0 where
  pub vkey : Text

-- The verifying key's digest, printed; `hex_encode` is alloy's.
unfoldable pub get_vkey_handler : (Text → Text) → Text → ℕ × VkeyResponse
get_vkey_handler hex_encode digest = (200, record { vkey = codes "0x" ++ hex_encode digest })

unfoldable pub health_handler : Text
health_handler = codes "OK"
