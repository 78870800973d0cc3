-- ===== src/ImportCache/Lookup.antt =====
-- The Zygote that is found for the packages of a lambda function.
use open_lambda.Prelude.{
  ℕ, ◌≡◌, inl, inr, refl, true, false, List, [], ◌∷◌, ◌++◌, Option, none, some, arith, elem, All,
  Bool-cases, sym, subst,
}
use open_lambda.ImportCache.{
  Node, node, Children, no_child, child, packages, children, all_packages, recursive_init,
  init_children, covered, lookup, lookup_children, is_empty, new_import_cache, or_else,
}

covered-append :
    (ps qs ws : List ℕ) → covered ps ws ≡ true → covered qs ws ≡ true → covered (ps ++ qs) ws ≡ true
covered-append [] qs ws h k = k
covered-append (p ∷ ps) qs ws h k = ground (arith, covered-append ps qs ws)

-- No child imports only wanted packages.
abbrev pub Unfit : Children → List ℕ → Type 0
Unfit no_child ws = Unit
Unfit (child c cs) ws = (covered (packages c) ws ≡ false) × Unfit cs ws

-- A node that can be used and has no child that can be.
abbrev pub Best : Node → List ℕ → Type 0
Best m ws = (covered (all_packages m) ws ≡ true) × Unfit (children m) ws

-- The outcome of a search: the best node of a tree, or a root that imports unwanted packages.
abbrev Searched : Option Node → List ℕ → List ℕ → Type 0
Searched none own ws = covered own ws ≡ false
Searched (some m) own ws = Best m ws

abbrev SearchedChildren : Option Node → Children → List ℕ → Type 0
SearchedChildren none cs ws = Unfit cs ws
SearchedChildren (some m) cs ws = Best m ws

packages-init : (t : Node) (indirect : List ℕ) → packages (recursive_init t indirect) ≡ packages t
unfolding recursive_init
packages-init (node name own old cs) indirect = refl

lookup_unwanted : (t : Node) (ws : List ℕ) → covered (packages t) ws ≡ false → lookup t ws ≡ none
unfolding lookup
lookup_unwanted (node name own indirect cs) ws h = rw h refl

lookup_wanted :
    (t : Node) (ws : List ℕ)
    → covered (packages t) ws ≡ true
    → lookup t ws ≡ or_else (lookup_children (children t) ws) (some t)
unfolding lookup
lookup_wanted (node name own indirect cs) ws h = rw h refl

-- The children's part of a search comes to the whole search.
or_else-Best :
    (t : Node) (o : Option Node) (ws : List ℕ)
    → covered (all_packages t) ws ≡ true
    → SearchedChildren o (children t) ws
    → Searched (or_else o (some t)) (packages t) ws
or_else-Best t (some m) ws h k = k
or_else-Best t none ws h k = (h, k)

or_else-Searched :
    (o rest : Option Node) (c : Node) (cs : Children) (ws : List ℕ)
    → Searched o (packages c) ws
    → SearchedChildren rest cs ws
    → SearchedChildren (or_else o rest) (child c cs) ws
or_else-Searched (some m) rest c cs ws h k = h
or_else-Searched none (some m) c cs ws h k = k
or_else-Searched none none c cs ws h k = (h, k)

mutual
  unfolding recursive_init init_children lookup_children

  lookup-Searched :
      (t : Node) (indirect ws : List ℕ)
      → covered indirect ws ≡ true
      → Searched (lookup (recursive_init t indirect) ws) (packages (recursive_init t indirect)) ws
  lookup-Searched (node name own old cs) indirect ws h = elim (Bool-cases (covered own ws)) [
    | inr unwanted ↦
        subst (λ o. Searched o own ws)
          (sym (
            lookup_unwanted (node name own indirect (init_children cs (indirect ++ own))) ws
              unwanted))
          unwanted
    | inl wanted ↦
        let all = covered-append indirect own ws h wanted in
        let t = node name own indirect (init_children cs (indirect ++ own)) in
        subst (λ o. Searched o own ws) (sym (lookup_wanted t ws wanted))
          (or_else-Best t (lookup_children (init_children cs (indirect ++ own)) ws) ws all
            (lookup_children-Searched cs (indirect ++ own) ws all))
  ]

  lookup_children-Searched :
      (cs : Children) (indirect ws : List ℕ)
      → covered indirect ws ≡ true
      → SearchedChildren
          (lookup_children (init_children cs indirect) ws)
          (init_children cs indirect)
          ws
  lookup_children-Searched no_child indirect ws h = tt
  lookup_children-Searched (child c cs) indirect ws h =
      or_else-Searched (lookup (recursive_init c indirect) ws)
        (lookup_children (init_children cs indirect) ws) (recursive_init c indirect)
        (init_children cs indirect) ws (lookup-Searched c indirect ws h)
        (lookup_children-Searched cs indirect ws h)

covered_empty : (ps ws : List ℕ) → is_empty ps ≡ true → covered ps ws ≡ true
covered_empty [] ws h = refl
covered_empty (p ∷ ps) ws h = cc

Searched-found :
    (o : Option Node) (own ws : List ℕ)
    → Searched o own ws
    → covered own ws ≡ true
    → (m : Node) × (o ≡ some m) × Best m ws
Searched-found none own ws h k = cc
Searched-found (some m) own ws h k = (m, refl, h)

-- Every package of a list is wanted, and some package of it is not.
abbrev pub Wanted : List ℕ → List ℕ → Type 0
Wanted ps ws = All (λ p. elem p ws ≡ true) ps

abbrev pub Unwanted : List ℕ → List ℕ → Type 0
Unwanted ps ws = (p : ℕ) × (elem p ps ≡ true) × (elem p ws ≡ false)

abbrev pub AllUnwanted : Children → List ℕ → Type 0
AllUnwanted no_child ws = Unit
AllUnwanted (child c cs) ws = Unwanted (packages c) ws × AllUnwanted cs ws

covered-Wanted : (ps ws : List ℕ) → covered ps ws ≡ true → Wanted ps ws
covered-Wanted [] ws h = tt
covered-Wanted (p ∷ ps) ws h = elim (Bool-cases (elem p ws)) [
  | inl there ↦ (there, covered-Wanted ps ws (rw there at h))
  | inr missing ↦ cc (rw missing at h)
]

elem_later : (q p : ℕ) (ps : List ℕ) → elem q ps ≡ true → elem q (p ∷ ps) ≡ true
elem_later q p ps h = ground (arith, h)

covered-Unwanted : (ps ws : List ℕ) → covered ps ws ≡ false → Unwanted ps ws
covered-Unwanted [] ws h = cc
covered-Unwanted (p ∷ ps) ws h = elim (Bool-cases (elem p ws)) [
  | inl there ↦
      let (q, mine, not_wanted) = covered-Unwanted ps ws (rw there at h) in
      (q, elem_later q p ps mine, not_wanted)
  | inr missing ↦ (p, ground arith, missing)
]

Unfit-AllUnwanted : (cs : Children) (ws : List ℕ) → Unfit cs ws → AllUnwanted cs ws
Unfit-AllUnwanted no_child ws h = tt
Unfit-AllUnwanted (child c cs) ws h =
    (covered-Unwanted (packages c) ws h.0, Unfit-AllUnwanted cs ws h.1)

lookup-Best :
    (config root : Node) (ws : List ℕ)
    → new_import_cache config ≡ some root
    → (m : Node) × (lookup root ws ≡ some m) × Best m ws
unfolding new_import_cache
lookup-Best config root ws h =
    let made : (is_empty (packages config) ≡ true) × (root ≡ recursive_init config []) =
      ground arith in
    let same = packages-init config [] in
    let wanted : covered (packages (recursive_init config [])) ws ≡ true =
      covered_empty (packages (recursive_init config [])) ws (rw same made.0) in
    rw made.1 (
      Searched-found (lookup (recursive_init config []) ws) (packages (recursive_init config [])) ws
        (lookup-Searched config [] ws refl) wanted)

-- In the tree of a new import cache a Zygote is found for any packages that are wanted. It imports
-- wanted packages alone, its own and those of its ancestors, and none of its children could be used
-- in its place: each of them imports a package that is not wanted.
pub lookup-new_import_cache :
    (config root : Node) (ws : List ℕ)
    → new_import_cache config ≡ some root
    → (m : Node) × (lookup root ws ≡ some m)
      × Wanted (all_packages m) ws
      × AllUnwanted (children m) ws
lookup-new_import_cache config root ws h =
    let (m, found, (wanted, unfit)) = lookup-Best config root ws h in
    (m, found, covered-Wanted (all_packages m) ws wanted, Unfit-AllUnwanted (children m) ws unfit)
