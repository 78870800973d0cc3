-- ===== src/Cgroups/Shutdown.antt =====
-- go/worker/sandbox/cgroups/pool.go: `Destroy`, which tells the task to quit and waits until it has
-- emptied the queues.
use open_lambda.Prelude.{
  ℕ, suc, ◌+◌, ◌≡◌, refl, ap, ◌∙◌, Bool, true, false, List, [], ◌∷◌, arith, count, length,
}
use open_lambda.Cgroups.{
  Conf, Phase, offering, draining, stopped, CgroupPool, Outcome, next, Event, quits, drains, step,
  run, and_then, drain, destroy, cg_task_quit, cg_task_drain, new_cgroup_pool,
}
use open_lambda.Cgroups.Steps.{made, in_hand}
use open_lambda.Cgroups.Places.{run-Placed}

-- The rounds of the loop, by which queue each takes from where both have a group.
abbrev pub draining_rounds : (ℕ → Bool) → List Bool → List Event
draining_rounds removes [] = []
draining_rounds removes (b ∷ bs) = drains b removes ∷ draining_rounds removes bs

abbrev pub Emptied : ℕ → CgroupPool → CgroupPool → Type 0
Emptied cg p q =
    (q.phase ≡ stopped)
    × (q.ready ≡ [])
    × (q.recycled ≡ [])
    × (q.used ≡ p.used)
    × (q.next_id ≡ p.next_id)
    × (count cg q.removed
        ≡ count cg p.removed + count cg p.ready + count cg p.recycled + count cg (in_hand p.phase))

-- One round removes a group that is left.
drain_group :
    (b : Bool) (removes : ℕ → Bool) (cg n : ℕ) (p : CgroupPool) (qs rs : List ℕ)
    → p.ready ≡ qs
    → p.recycled ≡ rs
    → p.phase ≡ draining
    → destroy removes 100 ≡ true
    → length qs + length rs ≡ suc n
    → (q : CgroupPool) × (drain b removes qs rs p ≡ next q)
      × (q.phase ≡ draining)
      × (length q.ready + length q.recycled ≡ n)
      × (q.used ≡ p.used)
      × (q.next_id ≡ p.next_id)
      × (count cg q.removed + count cg q.ready + count cg q.recycled
          ≡ count cg p.removed + count cg p.ready + count cg p.recycled)
drain_group b removes cg n p [] [] eq er at ok some_left =
    let bad : ⊥ = omega (arith, some_left) in elim bad [ ]
drain_group b removes cg n p (kg ∷ kgs) [] eq er at ok some_left = (
  record p { ready = kgs; removed = kg ∷ p.removed },
  rw ok refl,
  at,
  rw er (omega (arith, some_left)),
  refl,
  refl,
  ground (arith, ap (count cg) eq),
)
drain_group b removes cg n p [] (kg ∷ kgs) eq er at ok some_left = (
  record p { recycled = kgs; removed = kg ∷ p.removed },
  rw ok refl,
  at,
  rw eq (omega (arith, some_left)),
  refl,
  refl,
  ground (arith, ap (count cg) er),
)
drain_group true removes cg n p (kg ∷ kgs) (jg ∷ jgs) eq er at ok some_left = (
  record p { ready = kgs; removed = kg ∷ p.removed },
  rw ok refl,
  at,
  rw er (omega (arith, some_left)),
  refl,
  refl,
  ground (arith, ap (count cg) eq),
)
drain_group false removes cg n p (kg ∷ kgs) (jg ∷ jgs) eq er at ok some_left = (
  record p { recycled = jgs; removed = jg ∷ p.removed },
  rw ok refl,
  at,
  rw eq (omega (arith, some_left)),
  refl,
  refl,
  ground (arith, ap (count cg) er),
)

length-zero : (ks : List ℕ) → length ks ≡ 0 → ks ≡ []
length-zero [] h = refl
length-zero (k ∷ ks) h = let bad : ⊥ = omega (arith, h) in elim bad [ ]

drain_nothing :
    (b : Bool) (removes : ℕ → Bool) (p : CgroupPool) (qs rs : List ℕ)
    → qs ≡ []
    → rs ≡ []
    → drain b removes qs rs p ≡ next (record p { phase = stopped })
drain_nothing b removes p qs rs eq er = rw (eq, er) refl

drain_step :
    (b : Bool) (removes : ℕ → Bool) (p : CgroupPool)
    → p.phase ≡ draining
    → cg_task_drain b removes p.phase p ≡ drain b removes p.ready p.recycled p
unfolding cg_task_drain
drain_step b removes p at = ap (λ (f : Phase). cg_task_drain b removes f p) at

emptied :
    (cg : ℕ) (p : CgroupPool)
    → p.phase ≡ draining
    → p.ready ≡ []
    → p.recycled ≡ []
    → count cg p.removed
      ≡ count cg p.removed + count cg p.ready + count cg p.recycled + count cg (in_hand p.phase)
emptied cg p at no_ready no_recycled =
    ground (arith, ap in_hand at, ap (count cg) no_ready, ap (count cg) no_recycled)

drains-Emptied :
    (c : Conf) (removes : ℕ → Bool) (cg : ℕ) (bs : List Bool) (p : CgroupPool) (b : Bool)
    → p.phase ≡ draining
    → destroy removes 100 ≡ true
    → length p.ready + length p.recycled ≡ length bs
    → (q : CgroupPool) × (run c (draining_rounds removes (b ∷ bs)) p ≡ next q) × Emptied cg p q
unfolding run step cg_task_drain
drains-Emptied c removes cg [] p b at ok none_left =
    let no_ready = length-zero p.ready (omega (arith, none_left)) in
    let no_recycled = length-zero p.recycled (omega (arith, none_left)) in
    (
      record p { phase = stopped },
      ap (λ (o : Outcome). and_then o next)
          (drain_step b removes p at
            ∙ drain_nothing b removes p p.ready p.recycled no_ready no_recycled),
      (refl, no_ready, no_recycled, refl, refl, emptied cg p at no_ready no_recycled),
    )
drains-Emptied c removes cg (b' ∷ bs) p b at ok some_left =
    let (p', one, at', left, used, ids, counts) =
      drain_group b removes cg (length bs) p p.ready p.recycled refl refl at ok some_left in
    let (q, more, (over, no_ready, no_recycled, used', ids', counts')) =
      drains-Emptied c removes cg bs p' b' at' ok left in
    (
      q,
      ap (λ (o : Outcome). and_then o (run c (draining_rounds removes (b' ∷ bs))))
            (drain_step b removes p at ∙ one)
          ∙ more,
      (
        over,
        no_ready,
        no_recycled,
        used' ∙ used,
        ids' ∙ ids,
        ground (arith, counts, counts', ap in_hand at, ap in_hand at'),
      ),
    )

offering_quit :
    (removes : ℕ → Bool) (kg : ℕ) (p : CgroupPool) (f : Phase)
    → f ≡ offering kg
    → destroy removes 100 ≡ true
    → cg_task_quit removes f p ≡ next (record p { phase = draining; removed = kg ∷ p.removed })
unfolding cg_task_quit
offering_quit removes kg p f at ok = rw (at, ok) refl

-- `Destroy` comes to an end: told to quit while it holds a group for the queue, in a run from a new
-- pool, the task stops after one round for each group in the queues and one more, in whichever order it
-- takes them, if each directory can be removed and no sandbox releases a group in between. Both queues
-- are then empty, no sandbox has lost its group, and every group that was ever made is either with a
-- sandbox or removed, and not both.
pub destroy-Emptied :
    (c : Conf) (es : List Event) (removes : ℕ → Bool) (b : Bool) (bs : List Bool) (p : CgroupPool)
    (kg cg : ℕ)
    → run c es new_cgroup_pool ≡ next p
    → p.phase ≡ offering kg
    → destroy removes 100 ≡ true
    → length p.ready + length p.recycled ≡ length bs
    → (q : CgroupPool) × (run c (quits removes ∷ draining_rounds removes (b ∷ bs)) p ≡ next q)
      × (q.phase ≡ stopped)
      × (q.ready ≡ [])
      × (q.recycled ≡ [])
      × (q.used ≡ p.used)
      × (count cg q.used + count cg q.removed ≡ made cg q)
unfolding run step
destroy-Emptied c es removes b bs p kg cg ran at ok left =
    let told = record p { phase = draining; removed = kg ∷ p.removed } in
    let (q, more, (over, no_ready, no_recycled, used, ids, counts)) =
      drains-Emptied c removes cg bs told b refl ok left in
    let placed = run-Placed c es p cg ran in
    (
      q,
      ap (λ (o : Outcome). and_then o (run c (draining_rounds removes (b ∷ bs))))
            (offering_quit removes kg p p.phase at ok)
          ∙ more,
      over,
      no_ready,
      no_recycled,
      used,
      ground (arith, placed, counts, ids, used, ap in_hand at),
    )
