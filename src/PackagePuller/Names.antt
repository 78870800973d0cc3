-- ===== src/PackagePuller/Names.antt =====
-- The names of packages: their normal form, and the equality that the maps of the puller use.
use open_lambda.Prelude.{ℕ, ◌≡◌, refl, true, ◌||◌, List, [], ◌∷◌, ◌++◌, arith}
use open_lambda.PackagePuller.{Name, normalize_char, normalize_pkg, known, add_all}

normalize_char_idempotent : (c : ℕ) → normalize_char (normalize_char c) ≡ normalize_char c
normalize_char_idempotent c = ground arith

-- A name in normal form is its own normal form.
pub normalize_pkg_idempotent : (n : Name) → normalize_pkg (normalize_pkg n) ≡ normalize_pkg n
unfolding normalize_pkg
normalize_pkg_idempotent [] = refl
normalize_pkg_idempotent (c ∷ cs) = cc (normalize_char_idempotent c, normalize_pkg_idempotent cs)

pub known-append : (n : Name) (ms ks : List Name) → known n (ms ++ ks) ≡ (known n ms || known n ks)
known-append n [] ks = refl
known-append n (m ∷ ms) ks = ground (arith, known-append n ms ks)

pub known-add_all :
    (n : Name) (ms set : List Name) → known n set ≡ true → known n (add_all ms set) ≡ true
known-add_all n [] set h = h
known-add_all n (m ∷ ms) set h = known-add_all n ms (m ∷ set) (ground arith)

pub add_all-append : (ms ks set : List Name) → add_all (ms ++ ks) set ≡ add_all ks (add_all ms set)
add_all-append [] ks set = refl
add_all-append (m ∷ ms) ks set = add_all-append ms ks (m ∷ set)
