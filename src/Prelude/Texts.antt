-- ===== src/Prelude/Texts.antt =====
-- What the source uses of Rust's `str`, on texts of ASCII: `starts_with`, `split` at a
-- character, `trim`, and `parse::<u64>`.
use Prim.Native.Char.{code}
use Prim.Native.String.{String}
use Prim.Native.Nat.{ℕ, ◌+◌, ◌-◌, ◌*◌, ◌^◌, ◌<◌, ◌≤◌}
use mathlib.Core.Path.{◌≡◌, refl, ap, ◌∙◌}
use mathlib.Core.Logic.{◌↔◌, ◌⊎◌, inl, inr}
use mathlib.Core.Bool.{Bool, true, false, ◌&&◌, ◌||◌}
use mathlib.Core.Option.{Option, none, some}
use mathlib.Core.List.{List, [], ◌∷◌, ◌++◌}
use native.Mathlib.Omega.{arith}
use sp1_helios.Prelude.Tests.{ltb, leb, ◌==◌, if◌then◌else◌, Text, Bool-cases}
use sp1_helios.Prelude.Lists.{All}

-- The bytes of an ASCII text.
abbrev pub codes : String → Text
codes String.[] = []
codes (String.◌∷◌ c s) = code c ∷ codes s

unfoldable pub starts_with : Text → Text → Bool
starts_with s [] = true
starts_with [] (c ∷ prefix) = false
starts_with (d ∷ s) (c ∷ prefix) = d == c && starts_with s prefix

pub starts_with-append : (prefix s : Text) → starts_with (prefix ++ s) prefix ≡ true
unfolding starts_with
starts_with-append [] s = refl
starts_with-append (c ∷ prefix) s = ground (arith, starts_with-append prefix s)

-- A byte before the first piece.
abbrev pub widen : ℕ → List Text → List Text
widen c [] = (c ∷ []) ∷ []
widen c (piece ∷ pieces) = (c ∷ piece) ∷ pieces

unfoldable pub split : ℕ → Text → List Text
split sep [] = [] ∷ []
split sep (c ∷ s) = let rest = split sep s in if c == sep then [] ∷ rest else widen c rest

abbrev pub is_space : ℕ → Bool
is_space c = c == 32 || leb 9 c && leb c 13

unfoldable pub trim_start : Text → Text
trim_start [] = []
trim_start (c ∷ s) = let rest = trim_start s in if is_space c then rest else c ∷ s

abbrev pub is_empty : Text → Bool
is_empty [] = true
is_empty (c ∷ s) = false

unfoldable pub trim_end : Text → Text
trim_end [] = []
trim_end (c ∷ s) = let rest = trim_end s in if is_space c && is_empty rest then [] else c ∷ rest

abbrev pub trim : Text → Text
trim s = trim_end (trim_start s)

-- Digits after a number, with the checks for overflow.
unfoldable pub parse_digits : ℕ → Text → Option ℕ
parse_digits n [] = some n
parse_digits n (c ∷ s) =
    let rest = parse_digits (n * 10 + (c - 48)) s in
    if leb 48 c && leb c 57 && ltb (n * 10 + (c - 48)) (2 ^ 64) then rest else none

-- One plus sign may come first.
unfoldable pub parse_u64 : Text → Option ℕ
unfolding parse_digits
parse_u64 [] = none
parse_u64 (c ∷ []) = if c == 43 then none else parse_digits 0 (c ∷ [])
parse_u64 (c ∷ d ∷ s) = if c == 43 then parse_digits 0 (d ∷ s) else parse_digits 0 (c ∷ d ∷ s)

-- The texts with a separator between them.
unfoldable pub join : ℕ → List Text → Text
join sep [] = []
join sep (s ∷ []) = s
join sep (s ∷ t ∷ ts) = s ++ sep ∷ join sep (t ∷ ts)

abbrev pub Lacks : ℕ → Text → Type 0
Lacks sep = All (λ c. (c == sep) ≡ false)

abbrev pub Spaces : Text → Type 0
Spaces = All (λ c. is_space c ≡ true)

abbrev pub NoSpaces : Text → Type 0
NoSpaces = All (λ c. is_space c ≡ false)

split-Lacks : (sep : ℕ) (s : Text) → Lacks sep s → split sep s ≡ s ∷ []
unfolding split
split-Lacks sep [] h = refl
split-Lacks sep (c ∷ s) h = rw (h.0, split-Lacks sep s h.1) refl

split-append : (sep : ℕ) (s t : Text) → Lacks sep s → split sep (s ++ sep ∷ t) ≡ s ∷ split sep t
unfolding split
split-append sep [] t h = ground arith
split-append sep (c ∷ s) t h = rw (h.0, split-append sep s t h.1) refl

-- Splitting texts that were joined, if there is one and none has the separator.
pub split-join :
    (sep : ℕ) (s : Text) (ts : List Text)
    → Lacks sep s
    → All (Lacks sep) ts
    → split sep (join sep (s ∷ ts)) ≡ s ∷ ts
unfolding join
split-join sep s [] h hs = split-Lacks sep s h
split-join sep s (t ∷ ts) h hs =
    split-append sep s (join sep (t ∷ ts)) h ∙ ap (λ l. s ∷ l) (split-join sep t ts hs.0 hs.1)

trim_end-Spaces : (s : Text) → Spaces s → trim_end s ≡ []
unfolding trim_end
trim_end-Spaces [] h = refl
trim_end-Spaces (c ∷ s) h = rw (h.0, trim_end-Spaces s h.1) refl

trim_end-append : (s t : Text) → NoSpaces s → Spaces t → trim_end (s ++ t) ≡ s
unfolding trim_end
trim_end-append [] t h hs = trim_end-Spaces t hs
trim_end-append (c ∷ s) t h hs = rw (h.0, trim_end-append s t h.1 hs) refl

trim_start-none : (s t : Text) → NoSpaces s → Spaces t → trim_end (trim_start (s ++ t)) ≡ s
unfolding trim_start
trim_start-none [] [] h hs = unfold trim_end in refl
trim_start-none [] (c ∷ t) h hs = rw hs.0 (trim_start-none [] t tt hs.1)
trim_start-none (c ∷ s) t h hs = rw h.0 (trim_end-append (c ∷ s) t h hs)

-- Trimming takes the spaces around a text that has none.
pub trim-padded :
    (before s after : Text)
    → Spaces before
    → NoSpaces s
    → Spaces after
    → trim (before ++ (s ++ after)) ≡ s
unfolding trim_start
trim-padded [] s after b h a = trim_start-none s after h a
trim-padded (c ∷ before) s after b h a = rw b.0 (trim-padded before s after b.1 h a)

-- The number that decimal digits after a number spell.
abbrev pub decimal : ℕ → Text → ℕ
decimal n [] = n
decimal n (c ∷ s) = decimal (n * 10 + (c - 48)) s

abbrev pub Digits : Text → Type 0
Digits = All (λ c. (leb 48 c && leb c 57) ≡ true)

decimal_ge : (n : ℕ) (s : Text) → n ≤ decimal n s
decimal_ge n [] = omega arith
decimal_ge n (c ∷ s) = omega (arith, decimal_ge (n * 10 + (c - 48)) s)

-- Digits parse exactly when they spell a number within 64 bits, which is the result.
pub parse_digits_iff :
    (n m : ℕ) (s : Text)
    → n < 2 ^ 64
    → (parse_digits n s ≡ some m) ↔ (Digits s × (m ≡ decimal n s) × (m < 2 ^ 64))
unfolding parse_digits
parse_digits_iff n m [] le = (λ e. (tt, ground arith, ground arith), λ h. ground arith)
parse_digits_iff n m (c ∷ s) le =
    let next = n * 10 + (c - 48) in
    elim (Bool-cases (leb 48 c && leb c 57)) [
      | inr other ↦ (λ e. absurd (ground arith), λ h. absurd (ground arith))
      | inl digit ↦ elim (Bool-cases (ltb next (2 ^ 64))) [
        | inl fits ↦
            let rest = parse_digits_iff next m s (ground arith) in
            (
              λ e. let (ds, v, b) = rest.0 (ground (arith, e)) in ((digit, ds), v, b),
              λ h. rw (digit, fits) (rest.1 (h.0.1, h.1, h.2)),
            )
        | inr large ↦
            (λ e. absurd (ground arith), λ h. absurd (ground (arith, decimal_ge next s, h.1, h.2)))
      ]
    ]

-- A text that parses is digits after at most one plus sign, and within 64 bits.
pub parse_u64_lem :
    (s : Text) (n : ℕ)
    → parse_u64 s ≡ some n
    → (t : Text) × ((s ≡ t) ⊎ (s ≡ 43 ∷ t)) × Digits t × (n ≡ decimal 0 t) × (n < 2 ^ 64)
unfolding parse_u64
parse_u64_lem [] n e = absurd (ground arith)
parse_u64_lem (c ∷ []) n e = elim (Bool-cases (c == 43)) [
  | inl plus ↦ absurd (ground arith)
  | inr other ↦
      let (digits, v, b) = (parse_digits_iff 0 n (c ∷ []) (omega arith)).0 (rw other at e) in
      (c ∷ [], inl refl, digits, v, b)
]
parse_u64_lem (c ∷ d ∷ s) n e = elim (Bool-cases (c == 43)) [
  | inl plus ↦
      let (digits, v, b) = (parse_digits_iff 0 n (d ∷ s) (omega arith)).0 (rw plus at e) in
      (d ∷ s, inr (ground arith), digits, v, b)
  | inr other ↦
      let (digits, v, b) = (parse_digits_iff 0 n (c ∷ d ∷ s) (omega arith)).0 (rw other at e) in
      (c ∷ d ∷ s, inl refl, digits, v, b)
]
