-- ===== src/Prelude/Texts.antt =====
-- Texts: lists of bytes, their equality, and the decimal digits of a number.
use Prim.Native.Nat.{ℕ, zero, suc, ◌+◌, ◌-◌, ◌*◌, ◌/◌, ◌%◌, ◌<◌, ◌≤◌}
use mathlib.Core.Path.{◌≡◌, refl, sym, ap, ◌∙◌}
use mathlib.Core.Bool.{Bool, true, false, ◌&&◌}
use mathlib.Core.List.{List, [], ◌∷◌, ◌++◌}
use native.Mathlib.Omega.{arith}
use open_lambda.Prelude.Tests.{◌==◌, ltb, if◌then◌else◌, Bool-cases}
use mathlib.Core.Logic.{inl, inr}
use open_lambda.Prelude.Lists.{All, All-append}

abbrev pub Text : Type 0
Text = List ℕ

abbrev pub same_text : Text → Text → Bool
same_text [] [] = true
same_text [] (d ∷ ds) = false
same_text (c ∷ cs) [] = false
same_text (c ∷ cs) (d ∷ ds) = c == d && same_text cs ds

pub same_text_sound : (m n : Text) → same_text m n ≡ true → m ≡ n
same_text_sound [] [] h = refl
same_text_sound [] (d ∷ ds) h = ground arith
same_text_sound (c ∷ cs) [] h = ground arith
same_text_sound (c ∷ cs) (d ∷ ds) h = ground (arith, same_text_sound cs ds)

pub same_text_refl : (n : Text) → same_text n n ≡ true
same_text_refl [] = refl
same_text_refl (c ∷ cs) = ground (arith, same_text_refl cs)

-- `strings.HasPrefix`, the prefix first.
abbrev pub has_prefix : Text → Text → Bool
has_prefix [] cs = true
has_prefix (p ∷ ps) [] = false
has_prefix (p ∷ ps) (c ∷ cs) = p == c && has_prefix ps cs

pub has_prefix-append : (ps cs : Text) → has_prefix ps (ps ++ cs) ≡ true
has_prefix-append [] cs = refl
has_prefix-append (p ∷ ps) cs = ground (arith, has_prefix-append ps cs)

-- The digits of a number of at most `fuel` digits.
abbrev pub digits : ℕ → ℕ → Text
digits zero n = []
digits (suc fuel) n =
    let front = digits fuel (n / 10) in
    if ltb n 10 then (48 + n) ∷ [] else front ++ (48 + n % 10) ∷ []

-- `%d`
abbrev pub decimal : ℕ → Text
decimal n = digits (suc n) n

abbrev read : ℕ → Text → ℕ
read n [] = n
read n (d ∷ ds) = read (n * 10 + (d - 48)) ds

read-append : (n : ℕ) (ds es : Text) → read n (ds ++ es) ≡ read (read n ds) es
read-append n [] es = refl
read-append n (d ∷ ds) es = read-append (n * 10 + (d - 48)) ds es

read-digits : (fuel n : ℕ) → n < fuel → read 0 (digits fuel n) ≡ n
read-digits zero n h = let bad : ⊥ = omega (arith, h) in elim bad [ ]
read-digits (suc fuel) n h =
    let front = digits fuel (n / 10) in
    let last = 48 + n % 10 in
    elim (Bool-cases (ltb n 10)) [
      | inl small ↦ rw small (omega arith)
      | inr large ↦
          let many : 10 ≤ n = ground (arith, large) in
          let below = read-digits fuel (n / 10) (omega (arith, h, many)) in
          rw (large, read-append 0 front (last ∷ []), below) (omega arith)
    ]

-- Two numbers with the same digits are one.
pub decimal_injective : (m n : ℕ) → decimal m ≡ decimal n → m ≡ n
decimal_injective m n e =
    sym (read-digits (suc m) m (omega arith)) ∙ ap (read 0) e ∙ read-digits (suc n) n (omega arith)

-- A digit, and the digits of a number.
abbrev pub Digit : ℕ → Type 0
Digit c = (48 ≤ c) × (c ≤ 57)

pub digits-Digit : (fuel n : ℕ) → All Digit (digits fuel n)
digits-Digit zero n = tt
digits-Digit (suc fuel) n = elim (Bool-cases (ltb n 10)) [
  | inl small ↦ rw small ((omega arith, ground (arith, small)), tt)
  | inr large ↦ rw large (
      All-append Digit (digits fuel (n / 10)) ((48 + n % 10) ∷ []) (digits-Digit fuel (n / 10))
        ((omega arith, omega arith), tt))
]

-- `strings.Split` with a separator of one byte.
abbrev pub push : ℕ → List Text → List Text
push c [] = (c ∷ []) ∷ []
push c (w ∷ ws) = (c ∷ w) ∷ ws

abbrev pub split : ℕ → Text → List Text
split sep [] = [] ∷ []
split sep (c ∷ cs) = let rest = split sep cs in if c == sep then [] ∷ rest else push c rest
