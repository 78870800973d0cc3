-- ===== src/Storage/Names.antt =====
-- go/common/storage.go: no directory is named twice.
use open_lambda.Prelude.{
  ℕ, suc, ◌≡◌, refl, sym, ap, ◌∙◌, Bool, true, ◌&&◌, [], ◌∷◌, ◌++◌, append_assoc, arith, leb,
  if◌then◌else◌, All,
}
use open_lambda.Prelude.Texts.{Text, decimal, decimal_injective, Digit, digits-Digit}
use open_lambda.Storage.{DirMaker, dash, get}

abbrev tail : Text → Text
tail [] = []
tail (c ∷ cs) = cs

append-cancel : (p s t : Text) → p ++ s ≡ p ++ t → s ≡ t
append-cancel [] s t e = e
append-cancel (c ∷ cs) s t e = append-cancel cs s t (ap tail e)

-- The digits at the start of a text.
abbrev is_digit : ℕ → Bool
is_digit c = leb 48 c && leb c 57

abbrev number : Text → Text
number [] = []
number (c ∷ cs) = let rest = number cs in if is_digit c then c ∷ rest else []

number-append : (w s : Text) → All Digit w → number (w ++ dash s) ≡ w
number-append [] [] h = refl
number-append [] (c ∷ cs) h = refl
number-append (d ∷ ds) s (h, hs) =
    let one : is_digit d ≡ true = ground (arith, h) in rw (one, number-append ds s hs) refl

dash_injective : (s t : Text) → dash s ≡ dash t → s ≡ t
dash_injective [] [] e = refl
dash_injective [] (c ∷ cs) e = let bad : ⊥ = cc in elim bad [ ]
dash_injective (c ∷ cs) [] e = let bad : ⊥ = cc in elim bad [ ]
dash_injective (c ∷ cs) (d ∷ ds) e = ap tail e

same_name : (m n : ℕ) (s t : Text) → decimal m ++ dash s ≡ decimal n ++ dash t → (m ≡ n) × (s ≡ t)
same_name m n s t e =
    let digits_m = number-append (decimal m) s (digits-Digit (suc m) m) in
    let digits_n = number-append (decimal n) t (digits-Digit (suc n) n) in
    let digits = sym digits_m ∙ ap number e ∙ digits_n in
    (
      decimal_injective m n digits,
      dash_injective s t (
          append-cancel (decimal m) (dash s) (dash t)
            (e ∙ ap (λ (w : Text). w ++ dash t) (sym digits))),
    )

-- Two directories that one maker names are the same only where they were named at one value of the
-- counter and for one suffix, whatever bytes the suffixes have.
pub get_distinct :
    (d : DirMaker) (m n : ℕ) (s t : Text) → (get d s m).0 ≡ (get d t n).0 → (m ≡ n) × (s ≡ t)
unfolding get
get_distinct d m n s t e =
    let (one, suffix) = same_name (suc m) (suc n) s t (
      ap tail (
        append-cancel d.prefix (47 ∷ decimal (suc m) ++ dash s) (47 ∷ decimal (suc n) ++ dash t) (
          sym (append_assoc d.prefix (47 ∷ decimal (suc m)) (dash s))
          ∙ e
          ∙ append_assoc d.prefix (47 ∷ decimal (suc n)) (dash t)))) in
    (omega (arith, one), suffix)
