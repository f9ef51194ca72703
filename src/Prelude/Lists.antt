-- ===== src/Prelude/Lists.antt =====
-- Lists measured by native numbers, and predicates on all or some of their elements.
use Prim.Native.Nat.{ℕ, suc, ◌+◌}
use mathlib.Core.Path.{◌≡◌, refl, ap}
use mathlib.Core.Logic.{◌↔◌, ◌⊎◌, inl, inr}
use mathlib.Core.List.{List, [], ◌∷◌, ◌++◌, map}
use native.Mathlib.Omega.{arith}

module _ {ℓ} {A : Type ℓ} where
  abbrev pub length : List A → ℕ
  length [] = 0
  length (x ∷ xs) = suc (length xs)

  pub length-append : (xs ys : List A) → length (xs ++ ys) ≡ length xs + length ys
  length-append [] ys = omega arith
  length-append (x ∷ xs) ys = omega (arith, length-append xs ys)

module _ {ℓ} {A : Type ℓ} where
  pub length-map {κ} : {B : Type κ} (xs : List A) (f : A → B) → length (map f xs) ≡ length xs
  length-map [] f = refl
  length-map (x ∷ xs) f = ap suc (length-map xs f)

-- `P` at every element.
abbrev pub All {ℓ κ} : {A : Type ℓ} → (A → Type κ) → List A → Type κ
All P [] = Unit
All P (x ∷ xs) = P x × All P xs

-- `P` at some element, with the place.
abbrev pub Any {ℓ} : {A : Type ℓ} → (A → Type 0) → List A → Type 0
Any P [] = ⊥
Any P (x ∷ xs) = P x ⊎ Any P xs

pub Any-of_map {ℓ κ} :
    {A : Type ℓ} {B : Type κ} (f : A → B) (P : B → Type 0) (xs : List A)
    → Any P (map f xs)
    → Any (λ x. P (f x)) xs
Any-of_map f P [] h = h
Any-of_map f P (x ∷ xs) (inl h) = inl h
Any-of_map f P (x ∷ xs) (inr h) = inr (Any-of_map f P xs h)

-- What follows from `P` at any element, follows.
pub Any-const {ℓ κ} :
    {A : Type ℓ} {P : A → Type 0} {Q : Type κ} (xs : List A) → ((a : A) → P a → Q) → Any P xs → Q
Any-const [] f h = absurd h
Any-const (x ∷ xs) f (inl h) = f x h
Any-const (x ∷ xs) f (inr h) = Any-const xs f h

-- The same where every element has `P` too.
pub All-Any {ℓ κ} :
    {A : Type ℓ} {P Q : A → Type 0} {R : Type κ} (xs : List A)
    → ((a : A) → P a → Q a → R)
    → All P xs
    → Any Q xs
    → R
All-Any [] f p h = absurd h
All-Any (x ∷ xs) f p (inl h) = f x p.0 h
All-Any (x ∷ xs) f p (inr h) = All-Any xs f p.1 h

-- An element of a mapped list comes from an element of the list.
pub Any-split {ℓ} :
    {A : Type ℓ} {B : Type 0} (f : A → B) (xs : List A) (before after : List B) (b : B)
    → map f xs ≡ before ++ b ∷ after
    → Any (λ x. f x ≡ b) xs
Any-split f [] [] after b e = absurd (ground arith)
Any-split f [] (c ∷ before) after b e = absurd (ground arith)
Any-split f (x ∷ xs) [] after b e = inl (ground arith)
Any-split f (x ∷ xs) (c ∷ before) after b e = inr (Any-split f xs before after b (ground arith))

pub All-map {ℓ κ μ} :
    {A : Type ℓ} (P : A → Type κ) (Q : A → Type μ) (f : (a : A) → P a → Q a) (xs : List A)
    → All P xs
    → All Q xs
All-map P Q f [] h = tt
All-map P Q f (x ∷ xs) h = (f x h.0, All-map P Q f xs h.1)

pub All-append {ℓ κ} :
    {A : Type ℓ} (P : A → Type κ) (xs ys : List A) → All P xs → All P ys → All P (xs ++ ys)
All-append P [] ys f g = g
All-append P (x ∷ xs) ys f g = (f.0, All-append P xs ys f.1 g)

-- `R` between each element and every later one.
abbrev pub Pairwise {ℓ κ} : {A : Type ℓ} → (A → A → Type κ) → List A → Type κ
Pairwise R [] = Unit
Pairwise R (x ∷ xs) = All (R x) xs × Pairwise R xs

-- All elements but one.
pub All-remove {ℓ κ} :
    {A : Type ℓ} (P : A → Type κ) (before : List A) (x : A) (after : List A)
    → All P (before ++ x ∷ after)
    → P x × All P (before ++ after)
All-remove P [] x after h = h
All-remove P (b ∷ before) x after h =
    let (px, rest) = All-remove P before x after h.1 in (px, (h.0, rest))

pub Pairwise-snoc {ℓ κ} :
    {A : Type ℓ} (R : A → A → Type κ) (xs : List A) (y : A)
    → Pairwise R xs
    → All (λ x. R x y) xs
    → Pairwise R (xs ++ y ∷ [])
Pairwise-snoc R [] y h g = (tt, tt)
Pairwise-snoc R (x ∷ xs) y h g =
    (All-append (R x) xs (y ∷ []) h.0 (g.0, tt), Pairwise-snoc R xs y h.1 g.1)

-- One element taken out, with what it had to the others.
pub Pairwise-remove {ℓ κ} :
    {A : Type ℓ} (R : A → A → Type κ) (before : List A) (x : A) (after : List A)
    → ((a b : A) → R a b → R b a)
    → Pairwise R (before ++ x ∷ after)
    → Pairwise R (before ++ after) × All (R x) (before ++ after)
Pairwise-remove R [] x after swap h = (h.1, h.0)
Pairwise-remove R (b ∷ before) x after swap h =
    let (rest, others) = Pairwise-remove R before x after swap h.1 in
    let (bx, bs) = All-remove (R b) before x after h.0 in ((bs, rest), (swap b x bx, others))

pub All-both {ℓ κ μ ν} :
    {A : Type ℓ} {P : A → Type κ} {Q : A → Type μ} (R : A → Type ν) (xs : List A)
    → ((a : A) → P a → Q a → R a)
    → All P xs
    → All Q xs
    → All R xs
All-both R [] f g h = tt
All-both R (x ∷ xs) f g h = (f x g.0 h.0, All-both R xs f g.1 h.1)

pub Any-append_iff {ℓ} :
    {A : Type ℓ} (P : A → Type 0) (xs ys : List A) → Any P (xs ++ ys) ↔ (Any P xs ⊎ Any P ys)
Any-append_iff P [] ys = (λ h. inr h, λ h. elim h [ inl x ↦ absurd x | inr y ↦ y ])
Any-append_iff P (x ∷ xs) ys =
    let rest = Any-append_iff P xs ys in
    (
      λ h. elim h [
        | inl p ↦ inl (inl p)
        | inr q ↦ elim (rest.0 q) [ inl a ↦ inl (inr a) | inr b ↦ inr b ]
      ],
      λ h. elim h [
        | inl a ↦ elim a [ inl p ↦ inl p | inr q ↦ inr (rest.1 (inl q)) ]
        | inr b ↦ inr (rest.1 (inr b))
      ],
    )

-- An element with `P` where all have `Q`.
pub Any-All {ℓ} :
    {A : Type ℓ} (P Q R : A → Type 0) (xs : List A)
    → ((a : A) → Q a → P a → R a)
    → All Q xs
    → Any P xs
    → Any R xs
Any-All P Q R [] f q h = h
Any-All P Q R (x ∷ xs) f q (inl h) = inl (f x q.0 h)
Any-All P Q R (x ∷ xs) f q (inr h) = inr (Any-All P Q R xs f q.1 h)

pub Any-map {ℓ} :
    {A : Type ℓ} (P R : A → Type 0) (xs : List A) → ((a : A) → P a → R a) → Any P xs → Any R xs
Any-map P R [] f h = h
Any-map P R (x ∷ xs) f (inl h) = inl (f x h)
Any-map P R (x ∷ xs) f (inr h) = inr (Any-map P R xs f h)

pub Any-witness {ℓ} : {A : Type ℓ} (P : A → Type 0) (xs : List A) → Any P xs → (a : A) × P a
Any-witness P [] h = absurd h
Any-witness P (x ∷ xs) (inl h) = (x, h)
Any-witness P (x ∷ xs) (inr h) = Any-witness P xs h

pub All-of_Any :
    {A : Type 0} (P : A → Type 0) (xs : List A) → ((a : A) → Any (λ x. x ≡ a) xs → P a) → All P xs
All-of_Any P [] f = tt
All-of_Any P (x ∷ xs) f = (f x (inl refl), All-of_Any P xs (λ a h. f a (inr h)))
