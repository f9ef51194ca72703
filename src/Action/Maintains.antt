-- ===== src/Action/Maintains.antt =====
-- What holds of the world after an action if it held before, whatever the action returns.
use sp1_helios.Prelude.{
  ◌≡◌, refl, Bool, true, false, Result, ok, err, Result-cases, inl, inr, if◌then◌else◌,
}
use sp1_helios.Types.{ProofServiceError}
use sp1_helios.Redis.{Platform}
use sp1_helios.Action.{Action, World, lift, attempt, ◌>>=◌}

pub record Maintains {p : Platform} {A : Type 0} (P : World p → Type 0) (m : Action p A)
    : Type 0 where
  pub maintains : (w : World p) → P w → P (m w).1

module _ {p : Platform} {A : Type 0} {P : World p → Type 0} where
  pub Maintains-lift : (x : Result ProofServiceError A) → Maintains {p = p} P (lift x)
  unfolding lift
  Maintains-lift x = record { maintains = λ w h. h }

  pub Maintains-attempt : (m : Action p A) → Maintains P m → Maintains P (attempt m)
  unfolding attempt
  Maintains-attempt m h = record { maintains = h.maintains }

  pub Maintains-if :
      (b : Bool) (m n : Action p A)
      → (b ≡ true → Maintains P m)
      → (b ≡ false → Maintains P n)
      → Maintains P (if b then m else n)
  Maintains-if true m n h k = h refl
  Maintains-if false m n h k = k refl

module _ {p : Platform} {A B : Type 0} {P : World p → Type 0} where
  pub Maintains-bind :
      (m : Action p A) (f : A → Action p B)
      → Maintains P m
      → ((a : A) → Maintains P (f a))
      → Maintains P (m >>= f)
  unfolding ◌>>=◌
  Maintains-bind m f h k = record {
    maintains = λ w x. elim (Result-cases (m w).0) [
      | inl (a, q) ↦ rw q ((k a).maintains (m w).1 (h.maintains w x))
      | inr (e, q) ↦ rw q (h.maintains w x)
    ];
  }

  -- With what is known of a result that was there already.
  pub Maintains-bind_lift :
      (x : Result ProofServiceError A) (f : A → Action p B)
      → ((a : A) → x ≡ ok a → Maintains P (f a))
      → Maintains P (lift x >>= f)
  unfolding ◌>>=◌ lift
  Maintains-bind_lift (ok a) f k = k a refl
  Maintains-bind_lift (err e) f k = record { maintains = λ w h. h }
