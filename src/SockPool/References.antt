-- ===== src/SockPool/References.antt =====
-- The references to a container: one until it is destroyed, and one for each child that holds memory.
use open_lambda.Prelude.{
  ℕ, zero, suc, ◌+◌, ◌<◌, ◌≡◌, refl, sym, ap, subst, Bool, true, false, inl, inr, List, [], ◌∷◌,
  ◌++◌, Option, none, some, arith, if◌then◌else◌, ◌==◌, count, count-append, elem, All, Bool-cases,
}
use open_lambda.SockPool.{
  Container, Freed, behind, drop_child, limit_read, drop_ref, exit_to, dec_cg_ref_count,
}

abbrev pub ids : List Container → List ℕ
ids [] = []
ids (c ∷ cs) = c.id ∷ ids cs

-- The reference to its parent that a container holds until it is released.
abbrev pub refs_of : Bool → Option ℕ → List ℕ
refs_of true parent = []
refs_of false none = []
refs_of false (some p) = p ∷ []

abbrev pub self_ref : Bool → ℕ
self_ref true = 0
self_ref false = 1

abbrev pub ParentIn : Option ℕ → List ℕ → Type 0
ParentIn none is = Unit
ParentIn (some p) is = elem p is ≡ true

-- A container counts the references to it, and is released when it counts none.
abbrev pub Counts : List ℕ → Container → Type 0
Counts refs c =
    (self_ref c.dead + count c.id refs ≡ c.ref_count) × (c.released ≡ (c.ref_count == 0))

-- Containers that count the references of each other and some more; older ones have smaller numbers,
-- and parents are older.
abbrev pub Counted : List ℕ → List Container → Type 0
Counted refs [] = Unit
Counted refs (c ∷ cs) =
    Counts refs c
    × All (λ i. i < c.id) (ids cs)
    × ParentIn c.parent (ids cs)
    × Counted (refs_of c.released c.parent ++ refs) cs

-- The memory of the containers that are not released.
abbrev pub held : List Container → ℕ
held [] = 0
held (c ∷ cs) = let rest = held cs in if c.released then rest else c.limit + rest

All_of : (P : ℕ → Type 0) (is : List ℕ) → ((i : ℕ) → P i) → All P is
All_of P [] f = tt
All_of P (i ∷ is) f = (f i, All_of P is f)

All_append_same :
    (os rs ss is : List ℕ)
    → All (λ j. count j ss ≡ count j rs) is
    → All (λ j. count j (os ++ ss) ≡ count j (os ++ rs)) is
All_append_same os rs ss [] h = tt
All_append_same os rs ss (i ∷ is) (h, hs) =
    (omega (arith, h, count-append i os rs, count-append i os ss), All_append_same os rs ss is hs)

pub Counted-same_on :
    (rs ss : List ℕ) (cs : List Container)
    → All (λ j. count j ss ≡ count j rs) (ids cs)
    → Counted rs cs
    → Counted ss cs
Counted-same_on rs ss [] h g = tt
Counted-same_on rs ss (c ∷ cs) (h, hs) ((enough, zero_when), below, parent, rest) = (
  (omega (arith, h, enough), zero_when),
  below,
  parent,
  Counted-same_on (refs_of c.released c.parent ++ rs) (refs_of c.released c.parent ++ ss) cs
      (All_append_same (refs_of c.released c.parent) rs ss (ids cs) hs) rest,
)

pub Counted-same :
    (rs ss : List ℕ) (cs : List Container)
    → ((j : ℕ) → count j ss ≡ count j rs)
    → Counted rs cs
    → Counted ss cs
Counted-same rs ss cs h g =
    Counted-same_on rs ss cs (All_of (λ j. count j ss ≡ count j rs) (ids cs) h) g

-- One reference moves behind others.
pub count-swap : (os rs : List ℕ) (i j : ℕ) → count j (i ∷ (os ++ rs)) ≡ count j (os ++ i ∷ rs)
count-swap os rs i j =
    let left = count-append j os rs in
    let right = count-append j os (i ∷ rs) in ground (arith, left, right)

pub count_other :
    (id other : ℕ) (refs : List ℕ)
    → (other == id) ≡ false
    → count other (id ∷ refs) ≡ count other refs
count_other id other refs differs = ground (arith, differs)

-- Smaller numbers do not see a reference to a larger one.
pub fresh_refs :
    (id : ℕ) (os refs is : List ℕ)
    → All (λ j. j < id) is
    → All (λ j. count j (os ++ id ∷ refs) ≡ count j (os ++ refs)) is
fresh_refs id os refs [] h = tt
fresh_refs id os refs (i ∷ is) (h, hs) = (
  omega (arith, count-swap os refs id i, count_other id i (os ++ refs) (ground (arith, h))),
  fresh_refs id os refs is hs,
)

pub All_sym :
    (rs ss is : List ℕ)
    → All (λ j. count j ss ≡ count j rs) is
    → All (λ j. count j rs ≡ count j ss) is
All_sym rs ss [] h = tt
All_sym rs ss (i ∷ is) (h, hs) = (sym h, All_sym rs ss is hs)

-- No cgroup is taken by another sandbox before its limit is read.
abbrev pub Untaken : (ℕ → Option ℕ) → Type 0
Untaken taken = (id : ℕ) → taken id ≡ none

-- What a release does: the same containers, one reference less, and the memory that it gives back.
abbrev pub Drops : List ℕ → List Container → Freed → Type 0
Drops refs cs none = ⊥
Drops refs cs (some (cs', mb)) = Counted refs cs' × (ids cs' ≡ ids cs) × (held cs' + mb ≡ held cs)

behind-Drops :
    (refs : List ℕ) (c c' : Container) (cs : List Container) (mb : ℕ) (up : Freed)
    → Counts refs c'
    → c'.id ≡ c.id
    → All (λ i. i < c.id) (ids cs)
    → ParentIn c'.parent (ids cs)
    → held (c' ∷ []) + mb ≡ held (c ∷ [])
    → Drops (refs_of c'.released c'.parent ++ refs) cs up
    → Drops refs (c ∷ cs) (behind c' mb up)
behind-Drops refs c c' cs mb none counts same below parent mem bad = elim bad [ ]
behind-Drops refs c c' cs mb (some (ds, freed)) counts same below parent mem
      (good, ids_eq, held_eq) =
    (
      (counts, rw (same, ids_eq) below, rw ids_eq parent, good),
      cc (same, ids_eq),
      ground (arith, mem, held_eq),
    )

elem_tail :
    (id i : ℕ) (is : List ℕ) → (i == id) ≡ false → elem id (i ∷ is) ≡ true → elem id is ≡ true
elem_tail id i is differs h = ground arith

-- The release of a container that was found.
drop_ref-Drops :
    (taken : ℕ → Option ℕ) (refs : List ℕ) (c : Container) (n : ℕ) (child : Option ℕ)
    (cs : List Container) (up : Freed)
    → Untaken taken
    → c.ref_count ≡ n
    → Counted (c.id ∷ refs) (c ∷ cs)
    → (refs_of c.released c.parent ≡ refs_of false c.parent
        → Counted (refs_of false c.parent ++ refs) cs
        → Drops refs cs up)
    → Drops refs (c ∷ cs) (drop_ref taken (drop_child child c) n cs up)
drop_ref-Drops taken refs c zero child cs up mine e ((enough, _), below, parent, rest) f =
    let bad : ⊥ = ground (arith, e, enough) in elim bad [ ]
drop_ref-Drops taken refs c (suc zero) child cs up mine e ((enough, when), below, parent, rest) f =
    let held_now : c.released ≡ false = ground (arith, e, when) in
    let os = refs_of false c.parent in
    let shown = rw held_now at rest in
    let good : Counted (os ++ refs) cs =
      Counted-same_on (os ++ c.id ∷ refs) (os ++ refs) cs
        (All_sym (os ++ refs) (os ++ c.id ∷ refs) (ids cs) (fresh_refs c.id os refs (ids cs) below))
        shown in
    behind-Drops refs c (record (drop_child child c) { ref_count = 0; released = true }) cs
      (limit_read c (taken c.id)) up (ground (arith, e, enough), refl) refl below parent
      (rw (held_now, mine c.id) (omega arith)) (f (ap (λ b. refs_of b c.parent) held_now) good)
drop_ref-Drops taken refs c (suc (suc n)) child cs up mine e ((enough, when), below, parent, rest)
      f =
    let held_now : c.released ≡ false = ground (arith, e, when) in
    let os = refs_of c.released c.parent in
    (
      (
        (ground (arith, e, enough), ground (arith, held_now)),
        below,
        parent,
        Counted-same_on (os ++ c.id ∷ refs) (os ++ refs) cs
            (All_sym (os ++ refs) (os ++ c.id ∷ refs) (ids cs)
              (fresh_refs c.id os refs (ids cs) below))
            rest,
      ),
      refl,
      omega arith,
    )

dec_here :
    (taken : ℕ → Option ℕ) (child : Option ℕ) (id : ℕ) (c : Container) (cs : List Container)
    → (c.id == id) ≡ true
    → dec_cg_ref_count taken child id (c ∷ cs)
      ≡ drop_ref taken
          (drop_child child c)
          c.ref_count
          cs
          (exit_to (λ p. dec_cg_ref_count taken (some c.id) p cs) c.parent cs)
unfolding dec_cg_ref_count
dec_here taken child id c cs same = ground (arith, same)

dec_below :
    (taken : ℕ → Option ℕ) (child : Option ℕ) (id : ℕ) (c : Container) (cs : List Container)
    → (c.id == id) ≡ false
    → dec_cg_ref_count taken child id (c ∷ cs) ≡ behind c 0 (dec_cg_ref_count taken child id cs)
unfolding dec_cg_ref_count
dec_below taken child id c cs differs = ground (arith, differs)

exit_to-Drops :
    (refs : List ℕ) (f : ℕ → Freed) (parent : Option ℕ) (cs : List Container)
    → ParentIn parent (ids cs)
    → ((p : ℕ) → Counted (p ∷ refs) cs → elem p (ids cs) ≡ true → Drops refs cs (f p))
    → Counted (refs_of false parent ++ refs) cs
    → Drops refs cs (exit_to f parent cs)
exit_to-Drops refs f none cs here drops g = (g, refl, omega arith)
exit_to-Drops refs f (some p) cs here drops g = drops p g here

pub dec-Drops :
    (taken : ℕ → Option ℕ) (child : Option ℕ) (id : ℕ) (refs : List ℕ) (cs : List Container)
    → Untaken taken
    → Counted (id ∷ refs) cs
    → elem id (ids cs) ≡ true
    → Drops refs cs (dec_cg_ref_count taken child id cs)
unfolding dec_cg_ref_count
dec-Drops taken child id refs [] mine g here = ground arith
dec-Drops taken child id refs (c ∷ cs) mine g here = elim (Bool-cases (c.id == id)) [
  | inl same ↦
      let is_c : id ≡ c.id = ground (arith, same) in
      let up = exit_to (λ p. dec_cg_ref_count taken (some c.id) p cs) c.parent cs in
      rw (dec_here taken child id c cs same) (
        drop_ref-Drops taken refs c c.ref_count child cs up mine refl
          (subst (λ i. Counted (i ∷ refs) (c ∷ cs)) is_c g)
          (λ held_now.
            exit_to-Drops refs (λ p. dec_cg_ref_count taken (some c.id) p cs) c.parent cs g.2
              (λ p. dec-Drops taken (some c.id) p refs cs mine)))
  | inr differs ↦
      let ((enough, when), below, parent, rest) = g in
      let os = refs_of c.released c.parent in
      rw (dec_below taken child id c cs differs) (
        behind-Drops refs c c cs 0 (dec_cg_ref_count taken child id cs)
          (omega (arith, enough, count_other id c.id refs differs), when) refl below parent
          (omega arith)
          (dec-Drops taken child id (os ++ refs) cs mine
            (Counted-same (os ++ id ∷ refs) (id ∷ (os ++ refs)) cs
              (λ j. omega (arith, count-swap os refs id j)) rest)
            (elem_tail id c.id (ids cs) differs here)))
]

pub elem-lt : (p n : ℕ) (is : List ℕ) → elem p is ≡ true → All (λ i. i < n) is → p < n
elem-lt p n [] here below = ground arith
elem-lt p n (i ∷ is) here (b, bs) = elim (Bool-cases (i == p)) [
  | inl same ↦ ground (arith, same, b)
  | inr differs ↦ elem-lt p n is (ground (arith, here, differs)) bs
]

pub count_new : (n : ℕ) (is : List ℕ) → All (λ i. i < n) is → count n is ≡ 0
count_new n [] below = refl
count_new n (i ∷ is) (b, bs) = let rest = count_new n is bs in ground (arith, rest, b)
