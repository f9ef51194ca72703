-- ===== src/Api/Vkey.antt =====
-- The key that the service publishes, and the keys of the requests that it accepts.
use sp1_helios.Prelude.{
  ◌≡◌, sym, ap, ◌∙◌, ◌++◌, some, ok, Text, codes, arith, inl, inr, ok_inj, subst,
}
use sp1_helios.Types.{B256, ProofRequest}
use sp1_helios.Redis.{Platform}
use sp1_helios.Action.{World}
use sp1_helios.Store.{RedisStore}
use sp1_helios.Service.{request_proof}
use sp1_helios.Api.{Hex, ApiProofRequest, try_from, get_vkey_handler}
use sp1_helios.Api.Handlers.{try_from_iff, Answers, code_of, request_proof_handler-code}

module _ (p : Platform) (r : RedisStore) (x : Hex) where
  -- Where the printed digest parses as the key that the service compares with, a well-formed request
  -- for the published key is handed to `request_proof`, and answered by 202 if that succeeds and by
  -- its error's code if it does not: never by 422 for its key.
  pub get_vkey_handler-Answers :
      (hex_encode : Text → Text) (from_slice : Text → B256) (digest : Text) (api : ApiProofRequest)
      (request : ProofRequest) (w : World p)
      → x.parse_b256 (codes "0x" ++ hex_encode digest) ≡ some (from_slice digest)
      → api.vkey ≡ (get_vkey_handler hex_encode digest).1.vkey
      → try_from x api ≡ ok request
      → Answers p r x
          (from_slice digest)
          api
          w
          (code_of p r x 202 (request_proof p r request w).0)
          (request_proof p r request w).1
  unfolding get_vkey_handler
  get_vkey_handler-Answers hex_encode from_slice digest api request w parses published formed =
      let (_, _, _, key, _, _) = (try_from_iff x api request).0 formed in
      let same : request.vkey ≡ from_slice digest =
        ground (arith, key, parses, ap x.parse_b256 published) in
      elim (request_proof_handler-code p r x (from_slice digest) api w) [
        | inl ((e, q), _) ↦ absurd (ground (arith, q, formed))
        | inr (request', q, rest) ↦
            let agree : request ≡ request' = ok_inj (sym formed ∙ q) in
            elim rest [
              | inl (other, _) ↦
                  absurd (other (ap (λ (s : ProofRequest). s.vkey) (sym agree) ∙ same))
              | inr (_, answers) ↦
                  subst
                    (λ s.
                      Answers p r x (from_slice digest) api w
                        (code_of p r x 202 (request_proof p r s w).0) (request_proof p r s w).1)
                    (sym agree) answers
            ]
      ]
