-- ===== src/Prelude/Lists.antt =====
-- Lists measured by native numbers, under the library's names, and lists of identifiers.
use Prim.Native.Nat.{ℕ, suc, ◌+◌, ◌-◌, ◌≤◌}
use mathlib.Core.Path.{◌≡◌}
use mathlib.Core.Logic.{◌≢◌}
use mathlib.Core.Bool.{Bool, false, ◌||◌}
use mathlib.Core.List.{List, [], ◌∷◌, ◌++◌}
use native.Mathlib.Omega.{arith}
use open_lambda.Prelude.Tests.{◌==◌, if◌then◌else◌}

module _ {ℓ} {A : Type ℓ} where
  abbrev pub length : List A → ℕ
  length [] = 0
  length (x ∷ xs) = suc (length xs)

  pub length-append : (xs ys : List A) → length (xs ++ ys) ≡ length xs + length ys
  length-append [] ys = omega arith
  length-append (x ∷ xs) ys = omega (arith, length-append xs ys)

  -- A property of every element, by recursion, so that it computes to a tuple.
  abbrev pub All {κ} : (A → Type κ) → List A → Type κ
  All P [] = Unit
  All P (x ∷ xs) = P x × All P xs

  pub All-append {κ} : (P : A → Type κ) (xs ys : List A) → All P xs → All P ys → All P (xs ++ ys)
  All-append P [] ys h k = k
  All-append P (x ∷ xs) ys h k = (h.0, All-append P xs ys h.1 k)

  pub All-map {κ μ} :
      (P : A → Type κ) (Q : A → Type μ) (xs : List A) → ((x : A) → P x → Q x) → All P xs → All Q xs
  All-map P Q [] f h = tt
  All-map P Q (x ∷ xs) f (h, hs) = (f x h, All-map P Q xs f hs)

-- The list without the first occurrence of an identifier.
abbrev pub erase : ℕ → List ℕ → List ℕ
erase id [] = []
erase id (k ∷ ks) = if k == id then ks else k ∷ erase id ks

-- How often an identifier stands in a list.
abbrev pub count : ℕ → List ℕ → ℕ
count id [] = 0
count id (k ∷ ks) = let others = count id ks in if k == id then suc others else others

pub count-erase_self : (id : ℕ) (ks : List ℕ) → count id (erase id ks) ≡ count id ks - 1
count-erase_self id [] = omega arith
count-erase_self id (k ∷ ks) = ground (arith, count-erase_self id ks)

abbrev pub elem : ℕ → List ℕ → Bool
elem id [] = false
elem id (k ∷ ks) = k == id || elem id ks

pub count-append : (id : ℕ) (ks js : List ℕ) → count id (ks ++ js) ≡ count id ks + count id js
count-append id [] js = omega arith
count-append id (k ∷ ks) js = ground (arith, count-append id ks js)

pub length-erase-le : (id : ℕ) (ks : List ℕ) → length (erase id ks) ≤ length ks
length-erase-le id [] = omega arith
length-erase-le id (k ∷ ks) = ground (arith, length-erase-le id ks)

pub count-erase_ne :
    (gone id : ℕ) (ks : List ℕ) → gone ≢ id → count id (erase gone ks) ≡ count id ks
count-erase_ne gone id [] ne = omega arith
count-erase_ne gone id (k ∷ ks) ne = ground (arith, count-erase_ne gone id ks)
