-- ===== src/Cgroups/Fits.antt =====
-- go/worker/sandbox/cgroups/pool.go and cgroup.go: the limits of every group of the pool, step by step.
use open_lambda.Prelude.{
  ℕ, suc, ◌*◌, ◌≡◌, refl, sym, ◌∙◌, subst, Bool, true, false, List, [], ◌∷◌, ◌++◌, Option, none,
  some, arith, if◌then◌else◌, ◌==◌, ltb, leb, ◌&&◌, elem, erase, length, Bool-cases, inl, inr,
}
use open_lambda.Prelude.Maps.{update}
use open_lambda.Cgroups.{
  Conf, Group, Phase, fetching, offering, draining, stopped, CgroupPool, next, waits, panics, Event,
  fetches, offers, quits, drains, gets, freezes, resizes, resize, resized, releases, step, fetch,
  after_destroy, drain, hand_out, set_mem_limit_mb, destroy, cgroup_reserve, cg_task_fetch,
  cg_task_offer, cg_task_quit, cg_task_drain, get_cg, set_freeze_state, kill_and_release, release,
  thaw, tolerated, mib, set_cpu_percent,
}
use open_lambda.Cgroups.Steps.{Ensures, if-Ensures}

-- The field of the object agrees with the file of the kernel.
abbrev pub LimitIs : ℕ → Option ℕ → Type 0
LimitIs mb none = mb ≡ 0
LimitIs mb (some limit) = tolerated limit (mb * mib) ≡ true

abbrev pub Limited : Group → Type 0
Limited g = LimitIs g.mem_limit_mb g.memory_max

abbrev pub was_made : ℕ → CgroupPool → Bool
was_made cg p = ltb 0 cg && leb cg p.next_id

-- The limits of a group that was made, or was not.
pub record Fits (c : Conf) (m : Bool) (g : Group) : Type 0 where
  pub limited : Limited g
  pub procs : g.pids_max ≡ (if m then c.procs else 0)
  pub swap : g.swap_max ≡ (if m then c.swappiness else 0)

abbrev pub Fit : Conf → ℕ → CgroupPool → Type 0
Fit c cg p = Fits c (was_made cg p) (p.groups cg)

pub set_mem_limit_mb_lem :
    (c : Conf) (mb : ℕ) (g h : Group)
    → set_mem_limit_mb c mb g ≡ some h
    → (h.mem_limit_mb ≡ mb) × (h.pids_max ≡ g.pids_max) × (h.swap_max ≡ g.swap_max)
unfolding set_mem_limit_mb
set_mem_limit_mb_lem c mb g h e = (ground (arith, e), ground (arith, e), ground (arith, e))

pub set_mem_limit_mb-Limited :
    (c : Conf) (mb : ℕ) (g h : Group) → set_mem_limit_mb c mb g ≡ some h → Limited g → Limited h
unfolding set_mem_limit_mb
set_mem_limit_mb-Limited c mb g h e l = elim (Bool-cases (mb == g.mem_limit_mb)) [
  | inl same ↦ let same_group : g ≡ h = ground (arith, e, same) in subst Limited same_group l
  | inr other ↦
      let now : h.mem_limit_mb ≡ mb = ground (arith, e) in
      let file : h.memory_max ≡ some (c.rounds (mb * mib)) = ground (arith, e, other) in
      let near : tolerated (c.rounds (mb * mib)) (mb * mib) ≡ true = ground (arith, e, other) in
      rw (now, file) near
]

pub set_mem_limit_mb-Fits :
    (c : Conf) (m : Bool) (mb : ℕ) (g h : Group)
    → set_mem_limit_mb c mb g ≡ some h
    → Fits c m g
    → Fits c m h
set_mem_limit_mb-Fits c m mb g h e fits =
    let facts = set_mem_limit_mb_lem c mb g h e in
    record {
      limited = set_mem_limit_mb-Limited c mb g h e fits.limited;
      procs = facts.1 ∙ fits.procs;
      swap = facts.2 ∙ fits.swap;
    }

pub update-Fits :
    (c : Conf) (b : Bool) (m : ℕ → Group) (kg : ℕ) (g : Group) (cg : ℕ)
    → (Fits c b (m kg) → Fits c b g)
    → Fits c b (m cg)
    → Fits c b (update m kg g cg)
update-Fits c b m kg g cg keeps h = elim (Bool-cases (kg == cg)) [
  | inl same ↦
      let one : kg ≡ cg = ground (arith, same) in
      rw same (keeps (subst (λ (k : ℕ). Fits c b (m k)) (sym one) h))
  | inr other ↦ rw other h
]

pub thaw-Fits : (c : Conf) (m b : Bool) (g : Group) → Fits c m g → Fits c m (thaw b g)
thaw-Fits c m false g h = h
thaw-Fits c m true g h = record { limited = h.limited; procs = h.procs; swap = h.swap }

pub after_destroy-Fit :
    (c : Conf) (cg : ℕ) (b : Bool) (kg : ℕ) (p : CgroupPool)
    → Fit c cg p
    → Ensures (Fit c cg) (after_destroy b kg p)
after_destroy-Fit c cg false kg p h = tt
after_destroy-Fit c cg true kg p h = h

module _ (c : Conf) (cg : ℕ) (p : CgroupPool) where
  fetch-Fit : (thaws : Bool) (rs : List ℕ) → Fit c cg p → Fit c cg (fetch c thaws rs p)
  fetch-Fit thaws [] h = elim (Bool-cases (suc p.next_id == cg)) [
    | inl same ↦
        rw same
          (record { limited = refl; procs = ground (arith, same); swap = ground (arith, same) })
    | inr other ↦ rw other (record {
      limited = h.limited;
      procs = ground (arith, other, h.procs);
      swap = ground (arith, other, h.swap);
    })
  ]
  fetch-Fit thaws (kg ∷ kgs) h =
      update-Fits c (was_made cg p) p.groups kg (thaw thaws (p.groups kg)) cg
        (thaw-Fits c (was_made cg p) thaws (p.groups kg)) h

  first-Fit :
      (thaws : Bool) (f : Phase) → Fit c cg p → Ensures (Fit c cg) (cg_task_fetch c thaws f p)
  unfolding cg_task_fetch
  first-Fit thaws fetching h = fetch-Fit thaws p.recycled h
  first-Fit thaws (offering kg) h = tt
  first-Fit thaws draining h = tt
  first-Fit thaws stopped h = tt

  offer-Fit : (f : Phase) → Fit c cg p → Ensures (Fit c cg) (cg_task_offer f p)
  unfolding cg_task_offer
  offer-Fit fetching h = tt
  offer-Fit (offering kg) h = elim (Bool-cases (ltb (length p.ready) cgroup_reserve)) [
    | inl room ↦ rw room h
    | inr full ↦ rw full tt
  ]
  offer-Fit draining h = tt
  offer-Fit stopped h = tt

  quit-Fit :
      (removes : ℕ → Bool) (f : Phase) → Fit c cg p → Ensures (Fit c cg) (cg_task_quit removes f p)
  unfolding cg_task_quit
  quit-Fit removes fetching h = tt
  quit-Fit removes (offering kg) h =
      after_destroy-Fit c cg (destroy removes 100) kg (record p { phase = draining }) h
  quit-Fit removes draining h = tt
  quit-Fit removes stopped h = tt

  drain-Fit :
      (from_ready : Bool) (removes : ℕ → Bool) (qs rs : List ℕ)
      → Fit c cg p
      → Ensures (Fit c cg) (drain from_ready removes qs rs p)
  drain-Fit from_ready removes [] [] h = h
  drain-Fit from_ready removes (kg ∷ kgs) [] h =
      after_destroy-Fit c cg (destroy removes 100) kg (record p { ready = kgs }) h
  drain-Fit from_ready removes [] (kg ∷ kgs) h =
      after_destroy-Fit c cg (destroy removes 100) kg (record p { recycled = kgs }) h
  drain-Fit true removes (kg ∷ kgs) (jg ∷ jgs) h =
      after_destroy-Fit c cg (destroy removes 100) kg (record p { ready = kgs }) h
  drain-Fit false removes (kg ∷ kgs) (jg ∷ jgs) h =
      after_destroy-Fit c cg (destroy removes 100) jg (record p { recycled = jgs }) h

  task-Fit :
      (from_ready : Bool) (removes : ℕ → Bool) (f : Phase)
      → Fit c cg p
      → Ensures (Fit c cg) (cg_task_drain from_ready removes f p)
  unfolding cg_task_drain
  task-Fit from_ready removes fetching h = tt
  task-Fit from_ready removes (offering kg) h = tt
  task-Fit from_ready removes draining h = drain-Fit from_ready removes p.ready p.recycled h
  task-Fit from_ready removes stopped h = tt

  hand_out-Fit :
      (percent kg : ℕ) (kgs : List ℕ) (g : Option Group)
      → ((o : Group) → g ≡ some o → Fits c (was_made cg p) (p.groups kg) → Fits c (was_made cg p) o)
      → Fit c cg p
      → Ensures (Fit c cg) (hand_out percent kg kgs g p)
  hand_out-Fit percent kg kgs none keeps h = tt
  hand_out-Fit percent kg kgs (some o) keeps h =
      update-Fits c (was_made cg p) p.groups kg (set_cpu_percent percent o) cg
        (λ f.
          let kept = keeps o refl f in
          record { limited = kept.limited; procs = kept.procs; swap = kept.swap })
        h

  get_cg-Fit :
      (mb percent : ℕ) (qs : List ℕ) → Fit c cg p → Ensures (Fit c cg) (get_cg c mb percent qs p)
  unfolding get_cg
  get_cg-Fit mb percent [] h = tt
  get_cg-Fit mb percent (kg ∷ kgs) h =
      hand_out-Fit percent kg kgs (set_mem_limit_mb c mb (p.groups kg))
        (λ o e f. set_mem_limit_mb-Fits c (was_made cg p) mb (p.groups kg) o e f) h

  set_freeze_state-Fit :
      (state : Bool) (kg : ℕ) → Fit c cg p → Ensures (Fit c cg) (set_freeze_state state kg p)
  unfolding set_freeze_state
  set_freeze_state-Fit state kg h = elim (Bool-cases (elem kg p.used)) [
    | inl mine ↦ rw mine (
        update-Fits c (was_made cg p) p.groups kg (record (p.groups kg) { frozen = state }) cg
          (λ f. record { limited = f.limited; procs = f.procs; swap = f.swap }) h)
    | inr other ↦ rw other tt
  ]

  resized-Fit :
      (kg : ℕ) (o : Option Group)
      → ((g : Group) → o ≡ some g → Fits c (was_made cg p) (p.groups kg) → Fits c (was_made cg p) g)
      → Fit c cg p
      → Ensures (Fit c cg) (resized kg o p)
  resized-Fit kg none keeps h = tt
  resized-Fit kg (some g) keeps h = update-Fits c (was_made cg p) p.groups kg g cg (keeps g refl) h

  resize-Fit : (mb kg : ℕ) → Fit c cg p → Ensures (Fit c cg) (resize c mb kg p)
  unfolding resize
  resize-Fit mb kg h =
      if-Ensures (Fit c cg) (elem kg p.used) (resized kg (set_mem_limit_mb c mb (p.groups kg)) p)
        waits
        (resized-Fit kg (set_mem_limit_mb c mb (p.groups kg))
          (λ o e f. set_mem_limit_mb-Fits c (was_made cg p) mb (p.groups kg) o e f) h)
        tt

  kill_and_release-Fit :
      (killed : Bool) (removes : ℕ → Bool) (kg : ℕ)
      → Fit c cg p
      → Ensures (Fit c cg) (kill_and_release c killed removes kg p)
  unfolding kill_and_release
  kill_and_release-Fit killed removes kg h =
      let rest = record p { used = erase kg p.used } in
      let destroyed = after_destroy-Fit c cg (destroy removes 100) kg rest h in
      if-Ensures (Fit c cg) (elem kg p.used) (if killed then release c removes kg p else panics)
        waits
        (if-Ensures (Fit c cg) killed (release c removes kg p) panics
          (if-Ensures (Fit c cg) c.reuse_cgroups
            (if ltb (length p.recycled) cgroup_reserve
              then next (record rest { recycled = p.recycled ++ kg ∷ [] })
              else after_destroy (destroy removes 100) kg rest)
            (after_destroy (destroy removes 100) kg rest)
            (if-Ensures (Fit c cg) (ltb (length p.recycled) cgroup_reserve)
              (next (record rest { recycled = p.recycled ++ kg ∷ [] }))
              (after_destroy (destroy removes 100) kg rest) h destroyed)
            destroyed)
          tt)
        tt

pub step-Fit :
    (c : Conf) (cg : ℕ) (e : Event) (p : CgroupPool) → Fit c cg p → Ensures (Fit c cg) (step c e p)
unfolding step
step-Fit c cg (fetches thaws) p h = first-Fit c cg p thaws p.phase h
step-Fit c cg offers p h = offer-Fit c cg p p.phase h
step-Fit c cg (quits removes) p h = quit-Fit c cg p removes p.phase h
step-Fit c cg (drains from_ready removes) p h = task-Fit c cg p from_ready removes p.phase h
step-Fit c cg (gets mb percent) p h = get_cg-Fit c cg p mb percent p.ready h
step-Fit c cg (freezes state kg) p h = set_freeze_state-Fit c cg p state kg h
step-Fit c cg (resizes mb kg) p h = resize-Fit c cg p mb kg h
step-Fit c cg (releases killed removes kg) p h = kill_and_release-Fit c cg p killed removes kg h
