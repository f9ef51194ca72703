-- ===== src/Action/Outcome.antt =====
-- What holds of the world, and of the result, when an action succeeds.
use sp1_helios.Prelude.{
  ◌≡◌, refl, ◌∙◌, subst, Bool, true, false, Result, ok, arith, Result-cases, inl, inr,
  if◌then◌else◌,
}
use sp1_helios.Types.{ProofServiceError}
use sp1_helios.Redis.{Platform}
use sp1_helios.Action.{Action, World, pure, lift, attempt, ◌>>=◌}

-- From a world of `P`, a success with `a` leaves a world of `Q a`.
pub record Yields {p : Platform} {A : Type 0} (P : World p → Type 0) (m : Action p A)
    (Q : A → World p → Type 0) : Type 0 where
  pub yields : (w : World p) → P w → (a : A) → (m w).0 ≡ ok a → Q a (m w).1

abbrev pub Anywhere : {p : Platform} → World p → Type 0
Anywhere w = Unit

module _ {p : Platform} {A : Type 0} {P : World p → Type 0} {Q : A → World p → Type 0} where
  pub Yields-pure : (a : A) → ((w : World p) → P w → Q a w) → Yields P (pure a) Q
  unfolding pure
  Yields-pure a h = record { yields = λ w x b e. subst (λ c. Q c w) (ground arith) (h w x) }

  pub Yields-lift :
      (r : Result ProofServiceError A)
      → ((w : World p) → P w → (a : A) → r ≡ ok a → Q a w)
      → Yields P (lift r) Q
  unfolding lift
  Yields-lift r h = record { yields = h }

  -- What the action's result is, and what it yields, as values.
  pub Yields-attempt :
      (m : Action p A) → Yields P m Q → Yields P (attempt m) (λ r w. (a : A) → r ≡ ok a → Q a w)
  unfolding attempt
  Yields-attempt m h = record {
    yields = λ w x r e a q. let same : (m w).0 ≡ r = ground arith in h.yields w x a (same ∙ q);
  }

  pub Yields-if :
      (b : Bool) (m n : Action p A)
      → (b ≡ true → Yields P m Q)
      → (b ≡ false → Yields P n Q)
      → Yields P (if b then m else n) Q
  Yields-if true m n h k = h refl
  Yields-if false m n h k = k refl

pub Yields-bind :
    {p : Platform} {A B : Type 0} {P : World p → Type 0} {R : A → World p → Type 0}
    {Q : B → World p → Type 0} (m : Action p A) (f : A → Action p B)
    → Yields P m R
    → ((a : A) → Yields (R a) (f a) Q)
    → Yields P (m >>= f) Q
unfolding ◌>>=◌
Yields-bind m f h k = record {
  yields = λ w x b e. elim (Result-cases (m w).0) [
    | inl (a, q) ↦ rw q ((k a).yields (m w).1 (h.yields w x a q) b (rw q at e))
    | inr (y, q) ↦ absurd (ground (arith, e, q))
  ];
}

-- An action of which nothing is said.
pub Yields-any :
    {p : Platform} {A : Type 0} (m : Action p A) → Yields Anywhere m (λ a w. Anywhere w)
Yields-any m = record { yields = λ w x a e. tt }
