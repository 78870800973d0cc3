-- ===== src/Cgroups/Steps.antt =====
-- go/worker/sandbox/cgroups/pool.go: where each group of the pool is, step by step.
use open_lambda.Prelude.{
  ℕ, ◌+◌, ◌≡◌, refl, ap, Bool, true, false, List, [], ◌∷◌, Option, none, some, arith, if◌then◌else◌,
  ltb, leb, ◌&&◌, count, elem, erase, length, count-append, Bool-cases, inl, inr,
}
use open_lambda.Cgroups.{
  Conf, Group, Phase, fetching, offering, draining, stopped, CgroupPool, Outcome, next, waits,
  panics, fetch, after_destroy, drain, hand_out, set_mem_limit_mb, destroy, cgroup_reserve,
  cg_task_fetch, cg_task_offer, cg_task_quit, cg_task_drain, get_cg, kill_and_release, release,
}

abbrev pub in_hand : Phase → List ℕ
in_hand fetching = []
in_hand (offering cg) = cg ∷ []
in_hand draining = []
in_hand stopped = []

-- In how many places a group stands: the queues, the task's hand, a sandbox, or gone.
abbrev pub places : ℕ → CgroupPool → ℕ
places cg p =
    count cg p.ready
    + count cg p.recycled
    + count cg (in_hand p.phase)
    + count cg p.used
    + count cg p.removed

-- The groups that were made are those up to the last number.
abbrev pub made : ℕ → CgroupPool → ℕ
made cg p = if ltb 0 cg && leb cg p.next_id then 1 else 0

abbrev pub Placed : ℕ → CgroupPool → Type 0
Placed cg p = places cg p ≡ made cg p

abbrev pub Ensures : (CgroupPool → Type 0) → Outcome → Type 0
Ensures P (next p) = P p
Ensures P waits = Unit
Ensures P panics = Unit

pub after_destroy-Ensures :
    (P : CgroupPool → Type 0) (b : Bool) (cg : ℕ) (p : CgroupPool)
    → P (record p { removed = cg ∷ p.removed })
    → Ensures P (after_destroy b cg p)
after_destroy-Ensures P false cg p h = tt
after_destroy-Ensures P true cg p h = h

pub if-Ensures :
    (P : CgroupPool → Type 0) (b : Bool) (x y : Outcome)
    → Ensures P x
    → Ensures P y
    → Ensures P (if b then x else y)
if-Ensures P true x y h k = h
if-Ensures P false x y h k = k

-- A group that a sandbox gives up is counted once less.
pub count-erase-elem :
    (gone cg : ℕ) (ks : List ℕ)
    → elem gone ks ≡ true
    → count cg (erase gone ks) + count cg (gone ∷ []) ≡ count cg ks
count-erase-elem gone cg [] h = ground arith
count-erase-elem gone cg (k ∷ ks) h = ground (arith, count-erase-elem gone cg ks)

module _ (cg : ℕ) (p : CgroupPool) where
  fetch-Placed :
      (c : Conf) (thaws : Bool) (rs : List ℕ)
      → p.recycled ≡ rs
      → p.phase ≡ fetching
      → Placed cg p
      → Placed cg (fetch c thaws rs p)
  fetch-Placed c thaws [] e at h = ground (arith, ap in_hand at)
  fetch-Placed c thaws (kg ∷ kgs) e at h = ground (arith, ap in_hand at, ap (count cg) e)

  pub offer-Placed :
      (f : Phase) → p.phase ≡ f → Placed cg p → Ensures (Placed cg) (cg_task_offer f p)
  unfolding cg_task_offer
  offer-Placed fetching e h = tt
  offer-Placed (offering kg) e h = ground (arith, ap in_hand e, count-append cg p.ready (kg ∷ []))
  offer-Placed draining e h = tt
  offer-Placed stopped e h = tt

  pub quit-Placed :
      (removes : ℕ → Bool) (f : Phase)
      → p.phase ≡ f
      → Placed cg p
      → Ensures (Placed cg) (cg_task_quit removes f p)
  unfolding cg_task_quit
  quit-Placed removes fetching e h = tt
  quit-Placed removes (offering kg) e h =
      after_destroy-Ensures (Placed cg) (destroy removes 100) kg (record p { phase = draining })
        (ground (arith, ap in_hand e))
  quit-Placed removes draining e h = tt
  quit-Placed removes stopped e h = tt

  drain-Placed :
      (from_ready : Bool) (removes : ℕ → Bool) (qs rs : List ℕ)
      → p.ready ≡ qs
      → p.recycled ≡ rs
      → p.phase ≡ draining
      → Placed cg p
      → Ensures (Placed cg) (drain from_ready removes qs rs p)
  drain-Placed from_ready removes [] [] eq er at h = ground (arith, ap in_hand at)
  drain-Placed from_ready removes (kg ∷ kgs) [] eq er at h =
      after_destroy-Ensures (Placed cg) (destroy removes 100) kg (record p { ready = kgs })
        (ground (arith, ap (count cg) eq))
  drain-Placed from_ready removes [] (kg ∷ kgs) eq er at h =
      after_destroy-Ensures (Placed cg) (destroy removes 100) kg (record p { recycled = kgs })
        (ground (arith, ap (count cg) er))
  drain-Placed true removes (kg ∷ kgs) (jg ∷ jgs) eq er at h =
      after_destroy-Ensures (Placed cg) (destroy removes 100) kg (record p { ready = kgs })
        (ground (arith, ap (count cg) eq))
  drain-Placed false removes (kg ∷ kgs) (jg ∷ jgs) eq er at h =
      after_destroy-Ensures (Placed cg) (destroy removes 100) jg (record p { recycled = jgs })
        (ground (arith, ap (count cg) er))

  pub task-Placed :
      (from_ready : Bool) (removes : ℕ → Bool) (f : Phase)
      → p.phase ≡ f
      → Placed cg p
      → Ensures (Placed cg) (cg_task_drain from_ready removes f p)
  unfolding cg_task_drain
  task-Placed from_ready removes fetching e h = tt
  task-Placed from_ready removes (offering kg) e h = tt
  task-Placed from_ready removes draining e h =
      drain-Placed from_ready removes p.ready p.recycled refl refl e h
  task-Placed from_ready removes stopped e h = tt

  pub first-Placed :
      (c : Conf) (thaws : Bool) (f : Phase)
      → p.phase ≡ f
      → Placed cg p
      → Ensures (Placed cg) (cg_task_fetch c thaws f p)
  unfolding cg_task_fetch
  first-Placed c thaws fetching e h = fetch-Placed c thaws p.recycled refl e h
  first-Placed c thaws (offering kg) e h = tt
  first-Placed c thaws draining e h = tt
  first-Placed c thaws stopped e h = tt

  hand_out-Placed :
      (percent kg : ℕ) (kgs : List ℕ) (g : Option Group)
      → p.ready ≡ kg ∷ kgs
      → Placed cg p
      → Ensures (Placed cg) (hand_out percent kg kgs g p)
  hand_out-Placed percent kg kgs none e h = tt
  hand_out-Placed percent kg kgs (some g) e h = ground (arith, ap (count cg) e)

  pub get_cg-Placed :
      (c : Conf) (mb percent : ℕ) (qs : List ℕ)
      → p.ready ≡ qs
      → Placed cg p
      → Ensures (Placed cg) (get_cg c mb percent qs p)
  unfolding get_cg
  get_cg-Placed c mb percent [] e h = tt
  get_cg-Placed c mb percent (kg ∷ kgs) e h =
      hand_out-Placed percent kg kgs (set_mem_limit_mb c mb (p.groups kg)) e h

  release-Placed :
      (c : Conf) (removes : ℕ → Bool) (gone : ℕ)
      → elem gone p.used ≡ true
      → Placed cg p
      → Ensures (Placed cg) (release c removes gone p)
  release-Placed c removes gone mine h =
      let given = count-erase-elem gone cg p.used mine in
      let destroyed =
        after_destroy-Ensures (Placed cg) (destroy removes 100) gone
          (record p { used = erase gone p.used }) (ground (arith, given)) in
      elim (Bool-cases c.reuse_cgroups) [
        | inl on ↦ elim (Bool-cases (ltb (length p.recycled) cgroup_reserve)) [
          | inl room ↦ rw (on, room) (ground (arith, given, count-append cg p.recycled (gone ∷ [])))
          | inr full ↦ rw (on, full) destroyed
        ]
        | inr off ↦ rw off destroyed
      ]

  pub kill_and_release-Placed :
      (c : Conf) (killed : Bool) (removes : ℕ → Bool) (gone : ℕ)
      → Placed cg p
      → Ensures (Placed cg) (kill_and_release c killed removes gone p)
  unfolding kill_and_release
  kill_and_release-Placed c killed removes gone h = elim (Bool-cases (elem gone p.used)) [
    | inl mine ↦ elim (Bool-cases killed) [
      | inl dead ↦ rw (mine, dead) (release-Placed c removes gone mine h)
      | inr alive ↦ rw (mine, alive) tt
    ]
    | inr other ↦ rw other tt
  ]
