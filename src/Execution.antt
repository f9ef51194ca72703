-- ===== src/Execution.antt =====
-- zk-api/src/rpc_proxies: the proxy over the execution RPC providers, and `multiplex`.
pub mod Checked
use sp1_helios.Prelude.{
  ℕ, List, [], ◌∷◌, Bool, Result, ok, err, map_err, ◌>>=◌, Text, if◌then◌else◌, map,
}
use sp1_helios.Types.{B256, Address, AccountProofResponse}
use sp1_helios.Storage.{Trie, StorageError, build, verify_storage_slot_proofs}

-- One provider during one call: its answer to `eth_getProof address keys block`, and whether the
-- 4-second timeout elapsed first.
pub record Provider : Type 0 where
  pub get_proof : Address → List B256 → ℕ → Result Text AccountProofResponse
  pub timed_out : Bool

pub data ProxyError : Type 0 where
  no_clients : ProxyError
  rpc_error : Text → ProxyError
  rpc_timed_out : ProxyError
  storage_error : StorageError → ProxyError

-- `select_ok` on a non-empty list: the first success, or the error of the last to finish.
unfoldable pub first_ok :
    {A : Type 0} → Result ProxyError A → List (Result ProxyError A) → Result ProxyError A
first_ok r [] = r
first_ok (ok a) (r ∷ rs) = ok a
first_ok (err e) (r ∷ rs) = first_ok r rs

-- `multiplex`, with the clients in the order in which their futures finish.
unfoldable pub multiplex : {C R : Type 0} → (C → Result ProxyError R) → List C → Result ProxyError R
unfolding first_ok
multiplex f [] = err no_clients
multiplex f (c ∷ cs) = first_ok (f c) (map f cs)

module _ (t : Trie) where
  -- What `get_proof_and_check` does with an answer.
  unfoldable pub check_answer :
      List B256 → B256 → AccountProofResponse → Result ProxyError AccountProofResponse
  check_answer keys state_root proof =
      map_err storage_error (build keys proof) >>= λ contract_storage.
      map_err storage_error (verify_storage_slot_proofs t state_root contract_storage) >>= λ _.
      ok proof

  unfoldable pub get_proof_and_check :
      Address → List B256 → ℕ → B256 → Provider → Result ProxyError AccountProofResponse
  unfolding check_answer
  get_proof_and_check address keys block_id state_root client =
      if client.timed_out
      then err rpc_timed_out
      else map_err rpc_error (client.get_proof address keys block_id) >>= λ proof.
          check_answer keys state_root proof

  -- `Proxy::get_proof`.
  unfoldable pub get_proof :
      Address → List B256 → ℕ → B256 → List Provider → Result ProxyError AccountProofResponse
  unfolding get_proof_and_check multiplex
  get_proof address keys block_id state_root providers =
      multiplex (get_proof_and_check address keys block_id state_root) providers
