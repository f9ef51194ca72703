-- ===== src/Api/Handlers.antt =====
-- What a client of the API can rely on.
use sp1_helios.Prelude.{
  none, ℕ, ◌≡◌, ◌≢◌, refl, ◌↔◌, ◌⊎◌, List, [], ◌∷◌, Option, some, Bool, true, false, Result, ok,
  err, arith, Result-cases, Option-cases, Bool-cases, inl, inr, Text, ◌==◌, if◌then◌else◌,
}
use sp1_helios.Types.{B256, ProofRequest, ProofServiceError}
use sp1_helios.Redis.{Platform}
use sp1_helios.Action.{World, ◌>>=◌}
use sp1_helios.Store.{
  get_proof_state, State, RedisStore, read_finalized_header, read_json_value, parse_reply,
}
use sp1_helios.Service.{request_proof}
use sp1_helios.Api.{
  get_proof_handler, Hex, ApiProofRequest, parse_slots, try_from, request_proof_handler,
  get_finalized_header_handler, status_code, into_response,
}

module _ (x : Hex) where
  -- The texts parse to the slots, one for one.
  abbrev pub SlotsParse : List Text → List B256 → Type 0
  SlotsParse [] [] = Unit
  SlotsParse (s ∷ ss) (b ∷ bs) = (x.parse_b256 s ≡ some b) × SlotsParse ss bs
  SlotsParse _ _ = ⊥

  parse_slots_sound :
      (ss : List Text) (bs : List B256) → parse_slots x ss ≡ some bs → SlotsParse ss bs
  unfolding parse_slots
  parse_slots_sound [] [] e = tt
  parse_slots_sound [] (b ∷ bs) e = ground arith
  parse_slots_sound (s ∷ ss) [] e = elim (Option-cases (parse_slots x ss)) [
    | inl q ↦ ground arith
    | inr (cs, q) ↦ ground arith
  ]
  parse_slots_sound (s ∷ ss) (b ∷ bs) e = elim (Option-cases (parse_slots x ss)) [
    | inl q ↦ absurd (ground arith)
    | inr (cs, q) ↦ (ground arith, parse_slots_sound ss bs (ground arith))
  ]

  parse_slots_complete :
      (ss : List Text) (bs : List B256) → SlotsParse ss bs → parse_slots x ss ≡ some bs
  unfolding parse_slots
  parse_slots_complete [] [] h = refl
  parse_slots_complete [] (b ∷ bs) h = absurd h
  parse_slots_complete (s ∷ ss) [] h = absurd h
  parse_slots_complete (s ∷ ss) (b ∷ bs) h = ground (arith, h.0, parse_slots_complete ss bs h.1)

  -- A request is accepted exactly when the address, every slot in order, the header and the vkey
  -- parse, and the numbers are passed on as they are.
  pub try_from_iff :
      (api : ApiProofRequest) (request : ProofRequest)
      → (try_from x api ≡ ok request) ↔ (
          (x.parse_address api.src_chain_contract_address ≡ some request.src_chain_contract_address)
          × SlotsParse api.src_chain_storage_slots request.src_chain_storage_slots
          × (x.parse_b256 api.dst_chain_contract_from_header
              ≡ some request.dst_chain_contract_from_header)
          × (x.parse_b256 api.vkey ≡ some request.vkey)
          × (api.src_chain_block_number ≡ request.src_chain_block_number)
          × (api.dst_chain_contract_from_head ≡ request.dst_chain_contract_from_head))
  unfolding try_from
  try_from_iff api request = (
    (λ e. elim (Option-cases (parse_slots x api.src_chain_storage_slots)) [
      | inl q ↦ absurd (ground arith)
      | inr (bs, q) ↦ (
        ground arith,
        parse_slots_sound api.src_chain_storage_slots request.src_chain_storage_slots
            (ground arith),
        ground arith,
        ground arith,
        ground arith,
        ground arith,
      )
    ]),
    (λ h. ground (
      arith,
      parse_slots_complete api.src_chain_storage_slots request.src_chain_storage_slots h.1,
    )),
  )

module _ (p : Platform) (r : RedisStore) (x : Hex) where
  try_from-err :
      (api : ApiProofRequest) (e : ProofServiceError)
      → try_from x api ≡ err e
      → (into_response p.to_hex e).0 ≡ 400
  unfolding try_from into_response
  try_from-err api e q = ground arith

  -- The code of an error or of a response.
  abbrev pub code_of : {A : Type 0} → ℕ → Result ProofServiceError A → ℕ
  code_of success (ok a) = success
  code_of success (err e) = (into_response p.to_hex e).0

  -- The handler answers with this code, and leaves this world.
  abbrev pub Answers : B256 → ApiProofRequest → World p → ℕ → World p → Type 0
  Answers vkey api w code w' =
      ((request_proof_handler p r x vkey api w).1 ≡ w')
      × (status_code p r x (request_proof_handler p r x vkey api w).0 ≡ code)

  -- A request that is malformed, or is for another vkey, is answered by 400 or by 422, and touches
  -- nothing. Any other is handed to `request_proof`, and answered by 202 if that succeeds and
  -- by its error's code if it does not.
  pub request_proof_handler-code :
      (vkey : B256) (api : ApiProofRequest) (w : World p)
      → (((e : ProofServiceError) × (try_from x api ≡ err e)) × Answers vkey api w 400 w)
        ⊎ ((request : ProofRequest) × (try_from x api ≡ ok request)
            × (((request.vkey ≢ vkey) × Answers vkey api w 422 w)
                ⊎ ((request.vkey ≡ vkey)
                    × Answers vkey api w
                        (code_of 202 (request_proof p r request w).0)
                        (request_proof p r request w).1)))
  unfolding request_proof_handler status_code ◌>>=◌
  request_proof_handler-code vkey api w = elim (Result-cases (try_from x api)) [
    | inr (e, q) ↦ inl ((e, q), (ground (arith, q), ground (arith, q, try_from-err api e q)))
    | inl (request, q) ↦ inr (
      request,
      q,
      elim (Bool-cases (request.vkey == vkey)) [
        | inr other ↦ inl (ground arith, (ground (arith, q), ground (arith, q)))
        | inl same ↦ inr (ground arith, (ground (arith, q), ground (arith, q)))
      ],
    )
  ]

  -- The code for a state that was read.
  abbrev pub code_of_state : Result ProofServiceError (Option (State p)) → ℕ
  code_of_state (ok none) = 404
  code_of_state (ok (some state)) = 200
  code_of_state (err e) = (into_response p.to_hex e).0

  -- The endpoint for a proof answers 400 to an id that does not parse, and touches nothing. For any
  -- other id it reads the state and does no more: it answers 200 if there is one, 404 if there is
  -- none, and the error's code if it can not be read.
  pub get_proof_handler-code :
      (id : Text) (w : World p)
      → ((x.parse_b256 id ≡ none)
          × (((get_proof_handler p r x id w).1 ≡ w)
              × (status_code p r x (get_proof_handler p r x id w).0 ≡ 400)))
        ⊎ ((hash : B256) × (x.parse_b256 id ≡ some hash)
            × ((get_proof_handler p r x id w).1
                ≡ (get_proof_state p r (record { hash = hash }) w).1)
            × (status_code p r x (get_proof_handler p r x id w).0
                ≡ code_of_state (get_proof_state p r (record { hash = hash }) w).0))
  unfolding get_proof_handler status_code get_proof_state read_json_value parse_reply ◌>>=◌
  get_proof_handler-code id w = elim (Option-cases (x.parse_b256 id)) [
    | inl bad ↦ inl (bad, (ground (arith, bad), ground (arith, bad)))
    | inr (hash, good) ↦ inr (hash, good, ground (arith, good), ground (arith, good))
  ]

  abbrev pub holds_header : Result ProofServiceError (Option p.spec.Header) → Bool
  holds_header (ok (some header)) = true
  holds_header _ = false

  -- The endpoint for the finalized header answers 200 when a header is stored and can be read, and
  -- 500 otherwise: also when none is stored.
  pub get_finalized_header_handler-code :
      (w : World p)
      → status_code p r x (get_finalized_header_handler p r x w).0
        ≡ (if holds_header (read_finalized_header p r w).0 then 200 else 500)
  unfolding get_finalized_header_handler status_code read_finalized_header read_json_value
      parse_reply ◌>>=◌
  get_finalized_header_handler-code w = ground arith
