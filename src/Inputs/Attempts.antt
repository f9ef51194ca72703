-- ===== src/Inputs/Attempts.antt =====
-- The retry loop of `get_proof_inputs`.
use sp1_helios.Prelude.{
  ℕ, zero, suc, ◌≤◌, ◌<◌, ◌≡◌, refl, Result, ok, err, arith, Result-cases, inl, inr, ◌⊎◌, subst,
}
use native.Mathlib.Decide.{dec_le}
use sp1_helios.Types.{ProofRequest}
use sp1_helios.Helios.{Core}
use sp1_helios.Storage.{Trie}
use sp1_helios.Program.{ProofInputs}
use sp1_helios.Client.Time.{Config}
use sp1_helios.Inputs.{
  Failure, Attempt, attempts_exhausted, max_get_proof_inputs_attempts, retry, get_proof_inputs_once,
}

-- What holds at `n + 1` and up to `n` holds up to `n + 1`.
up_to_suc :
    (P : ℕ → Type 0) (n : ℕ) → P (suc n) → ((j : ℕ) → j ≤ n → P j) → (j : ℕ) → j ≤ suc n → P j
up_to_suc P n last below j le = elim (dec_le j n) [
  | yes h ↦ below j h
  | no h ↦ let e : suc n ≡ j = omega arith in subst P e last
]

-- `once k` is the first success, in the order in which the attempts are made: k = n comes first.
abbrev pub FirstSuccess : {A : Type 0} → (ℕ → Result Failure A) → ℕ → Type 0
FirstSuccess {A} once n =
    (k : ℕ) × (a : A) × (k ≤ n)
    × (retry once n ≡ ok a)
    × (once k ≡ ok a)
    × ((j : ℕ) → k < j → j ≤ n → (e : Failure) × (once j ≡ err e))

abbrev pub AllFailed : {A : Type 0} → (ℕ → Result Failure A) → ℕ → Type 0
AllFailed once n =
    ((j : ℕ) → j ≤ n → (e : Failure) × (once j ≡ err e))
    × ((e : Failure) × (once 0 ≡ err e)
        × (retry once n ≡ err (attempts_exhausted max_get_proof_inputs_attempts e)))

-- The loop ends after at most `n + 1` attempts, with the first success in their order (`once k`
-- is the attempt with `k` more to come), or, when all failed, with the last attempt's error.
pub retry-first :
    {A : Type 0} (once : ℕ → Result Failure A) (n : ℕ) → FirstSuccess once n ⊎ AllFailed once n
unfolding retry
retry-first once zero = elim (Result-cases (once 0)) [
  | inl (a, e) ↦ inl (0, a, omega arith, rw e refl, e, λ j p q. absurd (omega arith))
  | inr (x, e) ↦ inr (
    λ j q. let z : 0 ≡ j = omega arith in subst (λ k. (e : Failure) × (once k ≡ err e)) z (x, e),
    (x, e, rw e refl),
  )
]
retry-first {A} once (suc n) = elim (Result-cases (once (suc n))) [
  | inl (a, e) ↦ inl (suc n, a, omega arith, rw (e, retry) refl, e, λ j p q. absurd (omega arith))
  | inr (x, e) ↦ elim (retry-first once n) [
    | inl (k, a, le, r, o, later) ↦ inl (
      k,
      a,
      omega arith,
      rw (e, retry) r,
      o,
      λ j p q. up_to_suc (λ j. k < j → Failed j) n (λ _. (x, e)) (λ j q p. later j p q) j q p,
    )
    | inr (all, (y, z, r)) ↦ inr (up_to_suc Failed n (x, e) all, (y, z, rw (e, retry) r))
  ]
]
  where
    Failed : ℕ → Type 0
    Failed j = (e : Failure) × (once j ≡ err e)

-- With `n` more attempts to come, what an attempt answers.
module _ (h : Core) (t : Trie) (config : Config h.spec) (request : ProofRequest)
    (attempts : ℕ → Attempt h) where
  abbrev pub once : ℕ → Result Failure (ProofInputs h.spec)
  once n = get_proof_inputs_once h t config request (attempts n)
