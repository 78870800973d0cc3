-- ===== src/ImportCache/RefCount.antt =====
-- The references to the Zygote of a node, counted: who took it and has not put it back.
use open_lambda.Prelude.{
  ℕ, ◌-◌, ◌≤◌, ◌≡◌, inl, inr, refl, sym, ◌∙◌, ap, Bool, true, false, not, List, [], ◌∷◌, Option,
  none, some, arith, ◌==◌, count, erase, count-erase_self, count-erase_ne, Bool-cases,
}
use open_lambda.ImportCache.Zygote.{
  Zygote, Effect, destroyed, unpaused, paused, created, Got, discard, fast_path, slow_path,
  get_inner, get_sandbox_in_node, put_sandbox_in_node,
}

-- The node, the sandboxes that callers hold, once for each, and whether the node's sandbox runs.
pub record System : Type 0 where
  pub zygote : Zygote
  pub holders : List ℕ
  pub awake : Bool

abbrev pub awake_after : Bool → List Effect → Bool
awake_after awake [] = awake
awake_after awake (destroyed b ∷ es) = awake_after awake es
awake_after awake (unpaused b ∷ es) = awake_after true es
awake_after awake (paused b ∷ es) = awake_after false es
awake_after awake (created b ∷ es) = awake_after true es

-- A caller takes the sandbox, with the answers of `Unpause` and of the creation, or puts one back,
-- with the answer of `Pause`.
pub data Event : Type 0 where
  gets : Bool → Bool → Option ℕ → Event
  puts : ℕ → Bool → Event

abbrev pub taken : Option (ℕ × Bool) → List ℕ → List ℕ
taken none hs = hs
taken (some (b, new)) hs = b ∷ hs

unfoldable pub step : Event → System → Option System
step (gets force_new ok answer) s =
    let (z, effects, got) = get_sandbox_in_node force_new ok answer s.zygote in
    some (record { zygote = z; holders = taken got s.holders; awake = awake_after s.awake effects })
step (puts b ok) s = elim (put_sandbox_in_node b ok s.zygote) [
  | none ↦ none
  | some (z, effects) ↦
      some (record { zygote = z; holders = erase b s.holders; awake = awake_after s.awake effects })
]

-- Who puts a sandbox back holds it, and a sandbox that was created just now is held by nobody.
abbrev pub Possible : Event → System → Type 0
Possible (gets force_new ok none) s = Unit
Possible (gets force_new ok (some b)) s = count b s.holders ≡ 0
Possible (puts b ok) s = 1 ≤ count b s.holders

-- The count of the node's sandbox is that of its holders, and it runs just when there are some.
abbrev pub Counted : Option ℕ → ℕ → List ℕ → Bool → Type 0
Counted none n hs awake = Unit
Counted (some b) n hs awake = (n ≡ count b hs) × (awake ≡ not (n == 0))

abbrev pub Inv : System → Type 0
Inv s = Counted s.zygote.sb s.zygote.sb_ref_count s.holders s.awake

-- A sandbox that was created is nobody's yet.
abbrev Unknown : Option ℕ → List ℕ → Type 0
Unknown none hs = Unit
Unknown (some b) hs = count b hs ≡ 0

abbrev After : Got → List ℕ → Bool → Type 0
After (z, effects, got) hs awake =
    Counted z.sb z.sb_ref_count (taken got hs) (awake_after awake effects)

fast_path-After :
    (b : ℕ) (ok : Bool) (n : ℕ) (hs : List ℕ) (awake : Bool)
    → n ≡ count b hs
    → awake ≡ not (n == 0)
    → After (fast_path b ok (record { sb = some b; sb_ref_count = n })) hs awake
unfolding fast_path
fast_path-After b true n hs awake h k = ground arith
fast_path-After b false n hs awake h k = ground arith

get_inner-After :
    (ok : Bool) (answer sb : Option ℕ) (n : ℕ) (hs : List ℕ) (awake : Bool)
    → Counted sb n hs awake
    → Unknown answer hs
    → After (get_inner ok answer (record { sb = sb; sb_ref_count = n })) hs awake
unfolding get_inner slow_path
get_inner-After ok none none n hs awake h k = tt
get_inner-After ok (some a) none n hs awake h k = (ground arith, refl)
get_inner-After ok answer (some b) n hs awake h k = fast_path-After b ok n hs awake h.0 h.1

get-After :
    (force_new ok : Bool) (answer sb : Option ℕ) (n : ℕ) (hs : List ℕ) (awake : Bool)
    → Counted sb n hs awake
    → Unknown answer hs
    → After
        (get_sandbox_in_node force_new ok answer (record { sb = sb; sb_ref_count = n }))
        hs
        awake
unfolding get_sandbox_in_node discard
get-After false ok answer sb n hs awake h k = get_inner-After ok answer sb n hs awake h k
get-After true ok answer none n hs awake h k = get_inner-After ok answer none n hs awake tt k
get-After true ok answer (some old) n hs awake h k = get_inner-After ok answer none n hs awake tt k

put_counts :
    (b : ℕ) (ok : Bool) (sb : Option ℕ) (n : ℕ) (hs : List ℕ) (awake : Bool)
    → Counted sb n hs awake
    → 1 ≤ count b hs
    → (z : Zygote) × (effects : List Effect) × (put_sandbox_in_node b ok
          (record { sb = sb; sb_ref_count = n })
        ≡ some (z, effects))
      × Counted z.sb z.sb_ref_count (erase b hs) (awake_after awake effects)
unfolding put_sandbox_in_node
put_counts b ok none n hs awake h k = (record { sb = none; sb_ref_count = n }, [], refl, tt)
put_counts b ok (some a) n hs awake (ref, up) k = elim (Bool-cases (a == b)) [
  | inr other ↦
      let kept = count-erase_ne b a hs (ground arith) in
      (record { sb = some a; sb_ref_count = n }, [], rw other refl, (ground (arith, kept), up))
  | inl same ↦
      let e : a ≡ b = ground arith in
      let fewer = count-erase_self a hs in
      let less : count a (erase b hs) ≡ n - 1 =
        ap (λ j. count a (erase j hs)) (sym e) ∙ ground (arith, fewer) in
      let used : 1 ≤ n = omega (arith, ref, ap (λ j. count j hs) e, k) in
      elim (Bool-cases (n == 1)) [
        | inr more ↦ (
          record { sb = some a; sb_ref_count = n - 1 },
          [],
          ground arith,
          (sym less, ground arith),
        )
        | inl last ↦ elim (Bool-cases ok) [
          | inl paused_it ↦ (
            record { sb = some a; sb_ref_count = 0 },
            paused b ∷ [],
            ground arith,
            (ground arith, refl),
          )
          | inr failed ↦ (record { sb = none; sb_ref_count = 0 }, [], ground arith, tt)
        ]
      ]
]

step_get :
    (force_new ok : Bool) (answer : Option ℕ) (s : System)
    → Inv s
    → Unknown answer s.holders
    → (s' : System) × (step (gets force_new ok answer) s ≡ some s') × Inv s'
unfolding step
step_get force_new ok answer s h k =
    let got = get_sandbox_in_node force_new ok answer s.zygote in
    (
      record { zygote = got.0; holders = taken got.2 s.holders; awake = awake_after s.awake got.1 },
      refl,
      get-After force_new ok answer s.zygote.sb s.zygote.sb_ref_count s.holders s.awake h k,
    )

step-puts :
    (b : ℕ) (ok : Bool) (s : System) (z : Zygote) (effects : List Effect)
    → put_sandbox_in_node b ok s.zygote ≡ some (z, effects)
    → step (puts b ok) s
      ≡ some
          (record { zygote = z; holders = erase b s.holders; awake = awake_after s.awake effects })
unfolding step
step-puts b ok s z effects e = ground (arith, e)

step-Inv :
    (ev : Event) (s : System)
    → Inv s
    → Possible ev s
    → (s' : System) × (step ev s ≡ some s') × Inv s'
step-Inv (gets force_new ok none) s h k = step_get force_new ok none s h tt
step-Inv (gets force_new ok (some b)) s h k = step_get force_new ok (some b) s h k
step-Inv (puts b ok) s h k =
    let (z, effects, e, inv) =
      put_counts b ok s.zygote.sb s.zygote.sb_ref_count s.holders s.awake h k in
    (
      record { zygote = z; holders = erase b s.holders; awake = awake_after s.awake effects },
      step-puts b ok s z effects e,
      inv,
    )

unfoldable pub run : List Event → System → Option System
run [] s = some s
run (ev ∷ evs) s = elim (step ev s) [ none ↦ none | some s' ↦ run evs s' ]

-- Each event of a sequence is possible when it comes.
abbrev pub Fits : List Event → System → Type 0
Fits [] s = Unit
Fits (ev ∷ evs) s = Possible ev s × (elim (step ev s) [ none ↦ Unit | some s' ↦ Fits evs s' ])

run_cons :
    (ev : Event) (evs : List Event) (s s' : System)
    → step ev s ≡ some s'
    → run (ev ∷ evs) s ≡ run evs s'
unfolding run
run_cons ev evs s s' e = ground (arith, e)

run-Inv :
    (evs : List Event) (s : System)
    → Inv s
    → Fits evs s
    → (s' : System) × (run evs s ≡ some s') × Inv s'
unfolding run
run-Inv [] s h k = (s, refl, h)
run-Inv (ev ∷ evs) s h (possible, rest) =
    let (s1, e, h1) = step-Inv ev s h possible in
    let (s2, f, h2) = run-Inv evs s1 h1 (rw e at rest) in (s2, run_cons ev evs s s1 e ∙ f, h2)

-- A node that has no sandbox yet, which nobody holds.
abbrev pub new_system : System
new_system = record { zygote = record { sb = none; sb_ref_count = 0 }; holders = []; awake = false }

-- However callers take and put back the sandbox of a node, each putting back what it holds, with any
-- failures of the sandboxes and of their creation, and with new sandboxes that nobody holds: the node
-- never panics, the count of its sandbox is the number of those who hold that one, and it runs just
-- when somebody does.
pub run_counts :
    (evs : List Event) → Fits evs new_system → (s : System) × (run evs new_system ≡ some s) × Inv s
run_counts evs h = run-Inv evs new_system tt h
