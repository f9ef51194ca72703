-- ===== src/Execution/Checked.antt =====
-- What the proxy guarantees of an answer that it passes on.
use sp1_helios.Prelude.{
  ℕ, ◌≡◌, refl, ◌↔◌, List, [], ◌∷◌, false, Result, ok, err, map, arith, Result-cases, inl, inr, Any,
  Any-of_map, Any-const, subst,
}
use sp1_helios.Types.{B256, Address, AccountProofResponse, ContractStorage}
use sp1_helios.Storage.{Trie, build, verify_storage_slot_proofs}
use sp1_helios.Storage.Verify.{StorageValid, verify_storage_slot_proofs_iff, published}
use sp1_helios.Execution.{
  Provider, ProxyError, first_ok, multiplex, check_answer, get_proof_and_check, get_proof,
}

module _ (t : Trie) where
  -- The answer has a proof for each key, and they are valid under the state root, as is the
  -- account: the account whose address the answer names.
  pub record Checked (keys : List B256) (root : B256) (r : AccountProofResponse) : Type 0 where
    pub storage : ContractStorage
    pub built : build keys r ≡ ok storage
    pub valid : StorageValid t root storage

  pub check_answer_iff :
      (keys : List B256) (root : B256) (r r' : AccountProofResponse)
      → (check_answer t keys root r ≡ ok r') ↔ (Checked keys root r × (r ≡ r'))
  unfolding check_answer
  check_answer_iff keys root r r' = (
    (λ e. elim (Result-cases (build keys r)) [
      | inl (c, b) ↦ elim (Result-cases (verify_storage_slot_proofs t root c)) [
        | inl (v, q) ↦ (
          record {
            storage = c;
            built = b;
            valid = ((verify_storage_slot_proofs_iff t root c v).0 q).0;
          },
          ground arith,
        )
        | inr (x, q) ↦ ground arith
      ]
      | inr (x, b) ↦ ground arith
    ]),
    (λ h. ground (
      arith,
      h.0.built,
      h.1,
      (verify_storage_slot_proofs_iff t root h.0.storage
            (map (published h.0.storage.address) h.0.storage.storage_slots)).1
          (h.0.valid, refl),
    )),
  )

  -- A provider's answer is passed on exactly when it came in time and is checked. The requested
  -- address has no part in the check beyond the question: an answer for another account, with
  -- valid proofs, is passed on too.
  pub get_proof_and_check_iff :
      (address : Address) (keys : List B256) (block : ℕ) (root : B256) (p : Provider)
      (r : AccountProofResponse)
      → (get_proof_and_check t address keys block root p ≡ ok r)
        ↔ ((p.timed_out ≡ false) × (p.get_proof address keys block ≡ ok r) × Checked keys root r)
  unfolding get_proof_and_check
  get_proof_and_check_iff address keys block root p r = (
    (λ e. elim (Result-cases (p.get_proof address keys block)) [
      | inl (a, q) ↦
          let same = (check_answer_iff keys root a r).0 (ground arith) in
          (ground arith, ground (arith, same.1), subst (Checked keys root) same.1 same.0)
      | inr (x, q) ↦ absurd (ground arith)
    ]),
    (λ h. ground (arith, h.0, h.1, (check_answer_iff keys root r r).1 (h.2, refl))),
  )

first_ok-Any :
    {A : Type 0} (r : Result ProxyError A) (rs : List (Result ProxyError A)) (a : A)
    → first_ok r rs ≡ ok a
    → Any (λ x. x ≡ ok a) (r ∷ rs)
unfolding first_ok
first_ok-Any r [] a e = inl e
first_ok-Any (ok b) (r ∷ rs) a e = inl e
first_ok-Any (err x) (r ∷ rs) a e = inr (first_ok-Any r rs a e)

-- A success of `multiplex` is the success of one of its clients.
pub multiplex-Any :
    {C R : Type 0} (f : C → Result ProxyError R) (cs : List C) (r : R)
    → multiplex f cs ≡ ok r
    → Any (λ c. f c ≡ ok r) cs
unfolding multiplex
multiplex-Any f [] r e = absurd (ground arith)
multiplex-Any f (c ∷ cs) r e =
    Any-of_map f (λ x. x ≡ ok r) (c ∷ cs) (first_ok-Any (f c) (map f cs) r e)

-- So what the proxy returns is checked, whichever providers fail or answer first.
pub get_proof-Checked :
    (t : Trie) (address : Address) (keys : List B256) (block : ℕ) (root : B256)
    (providers : List Provider) (r : AccountProofResponse)
    → get_proof t address keys block root providers ≡ ok r
    → Checked t keys root r
unfolding get_proof
get_proof-Checked t address keys block root providers r e =
    Any-const providers (λ p q. ((get_proof_and_check_iff t address keys block root p r).0 q).2)
      (multiplex-Any (get_proof_and_check t address keys block root) providers r e)
