-- ===== src/Examples/Endpoints.antt =====
-- The handlers and the health check over the small server.
use sp1_helios.Prelude.{
  codes, ℕ, ◌≡◌, ◌≢◌, ◌⊎◌, refl, [], ◌∷◌, Option, none, some, ok, err, Text, text_eq, if◌then◌else◌,
}
use sp1_helios.Types.{ProofRequest, ProofServiceError}
use sp1_helios.Client.Time.{age, slot_timestamp}
use sp1_helios.Action.{World, ◌>>=◌}
use sp1_helios.Store.{finalized_header_key, read_finalized_header, read_json_value, get_proof_state}
use sp1_helios.Service.{request_proof}
use sp1_helios.Run.{check_header_health}
use sp1_helios.Run.Health.{Healthy, check_header_health_iff}
use sp1_helios.Api.Vkey.{get_vkey_handler-Answers}
use sp1_helios.Api.{
  get_vkey_handler, get_proof_handler, Hex, ApiProofRequest, try_from, get_finalized_header_handler,
  status_code,
}
use sp1_helios.Api.Handlers.{
  get_proof_handler-code, code_of_state, SlotsParse, try_from_iff, code_of, Answers,
  request_proof_handler-code, holds_header, get_finalized_header_handler-code,
}
use sp1_helios.Examples.Chain.{request, small_core, small_config}
use sp1_helios.Examples.Server.{stored_header, small_platform, small_store}

-- A text parses to its first number.
abbrev pub first_of : Text → Option ℕ
first_of [] = none
first_of (n ∷ rest) = some n

abbrev pub small_hex : Hex
small_hex = record { parse_address = first_of; parse_b256 = first_of; print_b256 = λ b. b ∷ [] }

abbrev pub api_request : ApiProofRequest
api_request = record {
  src_chain_contract_address = 5 ∷ [];
  src_chain_storage_slots = (10 ∷ []) ∷ [];
  src_chain_block_number = 150;
  dst_chain_contract_from_head = 32;
  dst_chain_contract_from_header = 39 ∷ [];
  vkey = 21 ∷ [];
}

pub parsed : try_from small_hex api_request ≡ ok request
unfolding try_from
parsed = refl

try_from_iff_example :
    (first_of api_request.src_chain_contract_address ≡ some request.src_chain_contract_address)
    × SlotsParse small_hex api_request.src_chain_storage_slots request.src_chain_storage_slots
    × (first_of api_request.dst_chain_contract_from_header
        ≡ some request.dst_chain_contract_from_header)
    × (first_of api_request.vkey ≡ some request.vkey)
    × (api_request.src_chain_block_number ≡ request.src_chain_block_number)
    × (api_request.dst_chain_contract_from_head ≡ request.dst_chain_contract_from_head)
try_from_iff_example = (try_from_iff small_hex api_request request).0 parsed

abbrev world : World small_platform
world = record { server = stored_header; spawned = [] }

get_finalized_header_handler-code_example :
    status_code small_platform small_store small_hex
      (get_finalized_header_handler small_platform small_store small_hex world).0
    ≡ (if holds_header small_platform small_store small_hex
          (read_finalized_header small_platform small_store world).0
        then 200
        else 500)
get_finalized_header_handler-code_example =
    get_finalized_header_handler-code small_platform small_store small_hex world

-- The service is for another vkey.
request_proof_handler-code_example :
    (((e : ProofServiceError) × (try_from small_hex api_request ≡ err e))
      × Answers small_platform small_store small_hex 22 api_request world 400 world)
    ⊎ ((request : ProofRequest) × (try_from small_hex api_request ≡ ok request)
        × (((request.vkey ≢ 22)
              × Answers small_platform small_store small_hex 22 api_request world 422 world)
            ⊎ ((request.vkey ≡ 22)
                × Answers small_platform small_store small_hex 22 api_request world
                    (code_of small_platform small_store small_hex 202
                      (request_proof small_platform small_store request world).0)
                    (request_proof small_platform small_store request world).1)))
request_proof_handler-code_example =
    request_proof_handler-code small_platform small_store small_hex 22 api_request world

-- At second 2100 the header of slot 64, which is second 768, is exactly 1332 seconds old.
healthy :
    (check_header_health small_core small_platform small_store small_config 2100000000000 world).0
    ≡ ok tt
unfolding check_header_health age read_finalized_header finalized_header_key text_eq slot_timestamp
    ◌>>=◌ read_json_value
healthy = refl

check_header_health_iff_example :
    Healthy small_core small_platform small_store small_config 2100000000000 world
check_header_health_iff_example =
    (check_header_health_iff small_core small_platform small_store small_config 2100000000000
        world).0
      healthy

-- No state is stored for the id.
get_proof_handler-code_example :
    ((first_of (151 ∷ []) ≡ none)
      × (((get_proof_handler small_platform small_store small_hex (151 ∷ []) world).1 ≡ world)
          × (status_code small_platform small_store small_hex
                (get_proof_handler small_platform small_store small_hex (151 ∷ []) world).0
              ≡ 400)))
    ⊎ ((hash : ℕ) × (first_of (151 ∷ []) ≡ some hash)
        × ((get_proof_handler small_platform small_store small_hex (151 ∷ []) world).1
            ≡ (get_proof_state small_platform small_store (record { hash = hash }) world).1)
        × (status_code small_platform small_store small_hex
              (get_proof_handler small_platform small_store small_hex (151 ∷ []) world).0
            ≡ code_of_state small_platform small_store small_hex
                (get_proof_state small_platform small_store (record { hash = hash }) world).0))
get_proof_handler-code_example =
    get_proof_handler-code small_platform small_store small_hex (151 ∷ []) world

-- The key 21, printed as a digit after the prefix.
abbrev key_hex : Hex
key_hex = record small_hex {
  parse_b256 = λ s. if text_eq s (codes "0x!") then some 21 else first_of s;
}

abbrev key_request : ApiProofRequest
key_request = record api_request { vkey = codes "0x!" }

key_parsed : try_from key_hex key_request ≡ ok request
unfolding try_from text_eq
key_parsed = refl

key_published : key_request.vkey ≡ (get_vkey_handler (λ bytes. codes "!") (21 ∷ [])).1.vkey
unfolding get_vkey_handler
key_published = refl

get_vkey_handler-Answers_example :
    Answers small_platform small_store key_hex 21 key_request world
      (code_of small_platform small_store key_hex 202
        (request_proof small_platform small_store request world).0)
      (request_proof small_platform small_store request world).1
unfolding text_eq
get_vkey_handler-Answers_example =
    get_vkey_handler-Answers small_platform small_store key_hex (λ bytes. codes "!") (λ bytes. 21)
      (21 ∷ []) key_request request world refl key_published key_parsed
