-- ===== src/SockPool/Changes.antt =====
-- What becomes of the references and of the memory when one container changes.
use open_lambda.Prelude.{
  ℕ, ◌+◌, ◌≤◌, ◌<◌, ◌≡◌, refl, sym, ◌∙◌, ap, subst, Bool, true, false, inl, inr, List, [], ◌∷◌,
  ◌++◌, some, arith, ◌==◌, elem, All, Bool-cases, eq_of-some,
}
use open_lambda.SockPool.{Container, find, modify, set_limit, set_paused}
use open_lambda.SockPool.References.{
  ids, refs_of, Counts, Counted, Counted-same, Counted-same_on, count_other, fresh_refs, held,
  count-swap,
}

pub find-elem :
    (id : ℕ) (c : Container) (cs : List Container) → find id cs ≡ some c → elem id (ids cs) ≡ true
find-elem id c [] e = ground arith
find-elem id c (d ∷ ds) e = elim (Bool-cases (d.id == id)) [
  | inl same ↦ ground (arith, same)
  | inr differs ↦ let below = find-elem id c ds (rw differs at e) in ground (arith, differs, below)
]

pub find-id : (id : ℕ) (c : Container) (cs : List Container) → find id cs ≡ some c → c.id ≡ id
find-id id c [] e = ground arith
find-id id c (d ∷ ds) e = elim (Bool-cases (d.id == id)) [
  | inl same ↦ let is_c : d ≡ c = eq_of-some (rw same at e) in rw (sym is_c) (ground (arith, same))
  | inr differs ↦ find-id id c ds (rw differs at e)
]

-- A living container counts itself, so it is not released.
pub find-released :
    (id : ℕ) (c : Container) (refs : List ℕ) (cs : List Container)
    → find id cs ≡ some c
    → Counted refs cs
    → c.dead ≡ false
    → c.released ≡ false
find-released id c refs [] e g alive = ground arith
find-released id c refs (d ∷ ds) e ((enough, when), below, parent, rest) alive =
    elim (Bool-cases (d.id == id)) [
      | inl same ↦
          let is_c : d ≡ c = eq_of-some (rw same at e) in
          let alive_d : d.dead ≡ false = ap (λ x. x.dead) is_c ∙ alive in
          let held_d : d.released ≡ false = ground (arith, enough, when, alive_d) in
          sym (ap (λ x. x.released) is_c) ∙ held_d
      | inr differs ↦
          find-released id c (refs_of d.released d.parent ++ refs) ds (rw differs at e) rest alive
    ]

-- Changes of the flag, the count and the children of a container.
module _ (fd : Container → Bool) (fr : Container → ℕ) (fk : Container → List ℕ) where
  abbrev pub revise : Container → Container
  revise c = record c { dead = fd c; ref_count = fr c; children = fk c }

  pub ids-revise : (id : ℕ) (cs : List Container) → ids (modify id revise cs) ≡ ids cs
  ids-revise id [] = refl
  ids-revise id (c ∷ cs) = elim (Bool-cases (c.id == id)) [
    | inl same ↦ rw same refl
    | inr differs ↦ rw differs (ap (λ l. c.id ∷ l) (ids-revise id cs))
  ]

  pub held-revise : (id : ℕ) (cs : List Container) → held (modify id revise cs) ≡ held cs
  held-revise id [] = refl
  held-revise id (c ∷ cs) = elim (Bool-cases (c.id == id)) [
    | inl same ↦ rw same refl
    | inr differs ↦ rw (differs, held-revise id cs) refl
  ]

  pub find-revise :
      (id : ℕ) (c : Container) (cs : List Container)
      → find id cs ≡ some c
      → find id (modify id revise cs) ≡ some (revise c)
  find-revise id c [] e = ground arith
  find-revise id c (d ∷ ds) e = elim (Bool-cases (d.id == id)) [
    | inl same ↦
        let is_c : d ≡ c = eq_of-some (rw same at e) in
        rw (same, same) (ap (λ x. some (revise x)) is_c)
    | inr differs ↦ rw (differs, differs) (find-revise id c ds (rw differs at e))
  ]

  -- One reference more is counted when the container that was found counts one more.
  pub Counted-revise :
      (id : ℕ) (c : Container) (refs : List ℕ) (cs : List Container)
      → find id cs ≡ some c
      → ((rs : List ℕ) → Counts rs c → Counts (id ∷ rs) (revise c))
      → Counted refs cs
      → Counted (id ∷ refs) (modify id revise cs)
  Counted-revise id c refs [] e more g = ground arith
  Counted-revise id c refs (d ∷ ds) e more (counts, below, parent, rest) =
      let os = refs_of d.released d.parent in
      elim (Bool-cases (d.id == id)) [
        | inl same ↦
            let is_c : d ≡ c = eq_of-some (rw same at e) in
            let counts' : Counts (id ∷ refs) (revise d) =
              subst (λ x. Counts (id ∷ refs) (revise x)) (sym is_c)
                (more refs (subst (λ x. Counts refs x) is_c counts)) in
            rw same (
              counts',
              below,
              parent,
              Counted-same_on (os ++ refs) (os ++ id ∷ refs) ds
                  (fresh_refs id os refs (ids ds)
                    (subst (λ i. All (λ j. j < i) (ids ds)) (ground (arith, same)) below))
                  rest,
            )
        | inr differs ↦
            let ids_eq = ids-revise id ds in
            rw differs (
              (omega (arith, counts.0, count_other id d.id refs differs), counts.1),
              rw ids_eq below,
              rw ids_eq parent,
              Counted-same (id ∷ (os ++ refs)) (os ++ id ∷ refs) (modify id revise ds)
                  (λ j. omega (arith, count-swap os refs id j))
                  (Counted-revise id c (os ++ refs) ds (rw differs at e) more rest),
            )
      ]

-- Changes of the limit and of the pause of a container.
module _ (fl : Container → ℕ) (fp : Container → Bool) where
  abbrev pub adjust : Container → Container
  adjust c = record c { limit = fl c; paused = fp c }

  pub ids-adjust : (id : ℕ) (cs : List Container) → ids (modify id adjust cs) ≡ ids cs
  ids-adjust id [] = refl
  ids-adjust id (c ∷ cs) = elim (Bool-cases (c.id == id)) [
    | inl same ↦ rw same refl
    | inr differs ↦ rw differs (ap (λ l. c.id ∷ l) (ids-adjust id cs))
  ]

  pub Counted-adjust :
      (id : ℕ) (refs : List ℕ) (cs : List Container)
      → Counted refs cs
      → Counted refs (modify id adjust cs)
  Counted-adjust id refs [] g = tt
  Counted-adjust id refs (c ∷ cs) (counts, below, parent, rest) = elim (Bool-cases (c.id == id)) [
    | inl same ↦ rw same (counts, below, parent, rest)
    | inr differs ↦
        let ids_eq = ids-adjust id cs in
        rw differs (
          counts,
          rw ids_eq below,
          rw ids_eq parent,
          Counted-adjust id (refs_of c.released c.parent ++ refs) cs rest,
        )
  ]

  pub held-adjust :
      (id : ℕ) (c : Container) (cs : List Container)
      → find id cs ≡ some c
      → c.released ≡ false
      → held (modify id adjust cs) + c.limit ≡ held cs + fl c
  held-adjust id c [] e h = ground arith
  held-adjust id c (d ∷ ds) e h = elim (Bool-cases (d.id == id)) [
    | inl same ↦
        let is_c : d ≡ c = eq_of-some (rw same at e) in
        let d_held : d.released ≡ false = ap (λ x. x.released) is_c ∙ h in
        let d_limit : d.limit ≡ c.limit = ap (λ x. x.limit) is_c in
        let new_limit : fl d ≡ fl c = ap fl is_c in ground (arith, same, d_held, d_limit, new_limit)
    | inr differs ↦
        let below = held-adjust id c ds (rw differs at e) h in rw differs (ground (arith, below))
  ]

  pub find-adjust :
      (id : ℕ) (c : Container) (cs : List Container)
      → find id cs ≡ some c
      → find id (modify id adjust cs) ≡ some (adjust c)
  find-adjust id c [] e = ground arith
  find-adjust id c (d ∷ ds) e = elim (Bool-cases (d.id == id)) [
    | inl same ↦
        let is_c : d ≡ c = eq_of-some (rw same at e) in
        rw (same, same) (ap (λ x. some (adjust x)) is_c)
    | inr differs ↦ rw (differs, differs) (find-adjust id c ds (rw differs at e))
  ]

pub ids-set_limit : (id mb : ℕ) (cs : List Container) → ids (modify id (set_limit mb) cs) ≡ ids cs
ids-set_limit id mb cs = ids-adjust (λ c. mb) (λ c. c.paused) id cs

pub Counted-set_limit :
    (id mb : ℕ) (refs : List ℕ) (cs : List Container)
    → Counted refs cs
    → Counted refs (modify id (set_limit mb) cs)
Counted-set_limit id mb refs cs g = Counted-adjust (λ c. mb) (λ c. c.paused) id refs cs g

pub held-set_limit :
    (id mb : ℕ) (c : Container) (cs : List Container)
    → find id cs ≡ some c
    → c.released ≡ false
    → held (modify id (set_limit mb) cs) + c.limit ≡ held cs + mb
held-set_limit id mb c cs e h = held-adjust (λ d. mb) (λ d. d.paused) id c cs e h

pub find-set_limit :
    (id mb : ℕ) (c : Container) (cs : List Container)
    → find id cs ≡ some c
    → find id (modify id (set_limit mb) cs) ≡ some (set_limit mb c)
find-set_limit id mb c cs e = find-adjust (λ d. mb) (λ d. d.paused) id c cs e

pub held-set_paused :
    (id : ℕ) (b : Bool) (cs : List Container) → held (modify id (set_paused b) cs) ≡ held cs
held-set_paused id b [] = refl
held-set_paused id b (c ∷ cs) = elim (Bool-cases (c.id == id)) [
  | inl same ↦ rw same refl
  | inr differs ↦ rw (differs, held-set_paused id b cs) refl
]

pub held-find :
    (id : ℕ) (c : Container) (cs : List Container)
    → find id cs ≡ some c
    → c.released ≡ false
    → c.limit ≤ held cs
held-find id c [] e h = ground arith
held-find id c (d ∷ ds) e h = elim (Bool-cases (d.id == id)) [
  | inl same ↦
      let is_c : d ≡ c = eq_of-some (rw same at e) in
      let d_held : d.released ≡ false = ap (λ x. x.released) is_c ∙ h in
      let d_limit : d.limit ≡ c.limit = ap (λ x. x.limit) is_c in rw d_held (omega (arith, d_limit))
  | inr differs ↦ let below = held-find id c ds (rw differs at e) h in ground (arith, below)
]
