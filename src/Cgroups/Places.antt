-- ===== src/Cgroups/Places.antt =====
-- go/worker/sandbox/cgroups/pool.go: where each group of the pool is.
use open_lambda.Prelude.{
  ℕ, ◌≡◌, refl, subst, List, [], ◌∷◌, Option, none, some, arith, elem, Bool-cases, inl, inr, All,
}
use open_lambda.Cgroups.{
  Conf, Group, resize, resized, set_mem_limit_mb, CgroupPool, Outcome, next, waits, panics, Event,
  fetches, offers, quits, drains, gets, freezes, resizes, releases, step, run, and_then,
  set_freeze_state, new_cgroup_pool,
}
use open_lambda.Cgroups.Steps.{
  offer-Placed, quit-Placed, task-Placed, first-Placed, get_cg-Placed, kill_and_release-Placed,
  places, made, Placed, Ensures, if-Ensures,
}

resized-Placed :
    (cg kg : ℕ) (o : Option Group) (p : CgroupPool)
    → Placed cg p
    → Ensures (Placed cg) (resized kg o p)
resized-Placed cg kg none p h = tt
resized-Placed cg kg (some g) p h = h

resize-Placed :
    (c : Conf) (cg mb kg : ℕ) (p : CgroupPool)
    → Placed cg p
    → Ensures (Placed cg) (resize c mb kg p)
unfolding resize
resize-Placed c cg mb kg p h =
    if-Ensures (Placed cg) (elem kg p.used) (resized kg (set_mem_limit_mb c mb (p.groups kg)) p)
      waits (resized-Placed cg kg (set_mem_limit_mb c mb (p.groups kg)) p h) tt

step-Placed :
    (c : Conf) (cg : ℕ) (e : Event) (p : CgroupPool)
    → Placed cg p
    → Ensures (Placed cg) (step c e p)
unfolding step set_freeze_state
step-Placed c cg (fetches thaws) p h = first-Placed cg p c thaws p.phase refl h
step-Placed c cg offers p h = offer-Placed cg p p.phase refl h
step-Placed c cg (quits removes) p h = quit-Placed cg p removes p.phase refl h
step-Placed c cg (drains from_ready removes) p h =
    task-Placed cg p from_ready removes p.phase refl h
step-Placed c cg (gets mb percent) p h = get_cg-Placed cg p c mb percent p.ready refl h
step-Placed c cg (freezes state kg) p h = elim (Bool-cases (elem kg p.used)) [
  | inl mine ↦ rw mine h
  | inr other ↦ rw other tt
]
step-Placed c cg (resizes mb kg) p h = resize-Placed c cg mb kg p h
step-Placed c cg (releases killed removes kg) p h =
    kill_and_release-Placed cg p c killed removes kg h

and_then-Ensures :
    (P : CgroupPool → Type 0) (o : Outcome) (f : CgroupPool → Outcome)
    → Ensures P o
    → ((p : CgroupPool) → P p → Ensures P (f p))
    → Ensures P (and_then o f)
and_then-Ensures P (next p) f h k = k p h
and_then-Ensures P waits f h k = tt
and_then-Ensures P panics f h k = tt

-- What each step keeps holds at the end of a run.
pub run-Ensures :
    (Q : Event → Type 0) (P : CgroupPool → Type 0) (c : Conf)
    → ((e : Event) (p : CgroupPool) → Q e → P p → Ensures P (step c e p))
    → (es : List Event) (p : CgroupPool) → All Q es
    → P p
    → Ensures P (run c es p)
unfolding run
run-Ensures Q P c keeps [] p all h = h
run-Ensures Q P c keeps (e ∷ es) p (one, all) h =
    and_then-Ensures P (step c e p) (run c es) (keeps e p one h)
      (λ q k. run-Ensures Q P c keeps es q all k)

abbrev pub Any : Event → Type 0
Any e = Unit

pub all-Any : (es : List Event) → All Any es
all-Any [] = tt
all-Any (e ∷ es) = (tt, all-Any es)

-- After any run from a new pool, a group that was made stands in exactly one place: among the groups
-- that are ready, among those to recycle, in the task's hand, with a sandbox, or among those that were
-- removed. No other group stands anywhere.
pub run-Placed :
    (c : Conf) (es : List Event) (p : CgroupPool) (cg : ℕ)
    → run c es new_cgroup_pool ≡ next p
    → places cg p ≡ made cg p
run-Placed c es p cg e =
    let start : Placed cg new_cgroup_pool = ground arith in
    subst (Ensures (Placed cg)) e (
      run-Ensures Any (Placed cg) c (λ o q any h. step-Placed c cg o q h) es new_cgroup_pool
        (all-Any es) start)
