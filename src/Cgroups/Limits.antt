-- ===== src/Cgroups/Limits.antt =====
-- go/worker/sandbox/cgroups/pool.go and cgroup.go: the limits of the groups that are handed out.
use open_lambda.Prelude.{
  ℕ, ◌+◌, ◌*◌, ◌≤◌, ◌<◌, ◌≡◌, refl, ap, subst, Bool, true, false, List, ◌∷◌, Option, none, some,
  arith, ◌==◌, count,
}
use open_lambda.Prelude.Maps.{update}
use open_lambda.Cgroups.{
  Conf, Group, CgroupPool, next, Event, run, hand_out, set_mem_limit_mb, get_cg, new_cgroup_pool,
  mib, set_cpu_percent,
}
use open_lambda.Cgroups.Steps.{Ensures, places, made}
use open_lambda.Cgroups.Places.{run-Ensures, Any, all-Any, run-Placed}
use open_lambda.Cgroups.Fits.{
  Fits, LimitIs, was_made, Fit, set_mem_limit_mb_lem, set_mem_limit_mb-Fits, step-Fit,
}

run-Fit :
    (c : Conf) (es : List Event) (p : CgroupPool) (cg : ℕ)
    → run c es new_cgroup_pool ≡ next p
    → Fit c cg p
run-Fit c es p cg e =
    let empty : was_made cg new_cgroup_pool ≡ false = ground arith in
    let start : Fit c cg new_cgroup_pool = record {
      limited = refl;
      procs = rw empty refl;
      swap = rw empty refl;
    } in
    subst (Ensures (Fit c cg)) e (
      run-Ensures Any (Fit c cg) c (λ o q any h. step-Fit c cg o q h) es new_cgroup_pool
        (all-Any es) start)

-- What a sandbox may rely on in its new group.
abbrev pub Granted : Conf → ℕ → ℕ → ℕ → List ℕ → CgroupPool → CgroupPool → Type 0
Granted c mb percent cg cgs p q =
    (q.ready ≡ cgs)
    × (q.used ≡ cg ∷ p.used)
    × ((q.groups cg).pids_max ≡ c.procs)
    × ((q.groups cg).swap_max ≡ c.swappiness)
    × ((q.groups cg).cpu_quota ≡ 1000 * percent)
    × (limit : ℕ) × ((q.groups cg).memory_max ≡ some limit)
    × (mb * mib ≤ limit + mib)
    × (limit ≤ mb * mib + mib)

file_near :
    (mb : ℕ) (file : Option ℕ)
    → 0 < mb
    → LimitIs mb file
    → (limit : ℕ) × (file ≡ some limit) × (mb * mib ≤ limit + mib) × (limit ≤ mb * mib + mib)
file_near mb none some_mb h = let bad : ⊥ = omega (arith, h, some_mb) in elim bad [ ]
file_near mb (some limit) some_mb h = (limit, refl, ground (arith, h), ground (arith, h))

granted :
    (c : Conf) (mb percent cg : ℕ) (cgs : List ℕ) (o : Option Group) (p q : CgroupPool)
    → 0 < mb
    → ((g : Group) → o ≡ some g → Fits c true g × (g.mem_limit_mb ≡ mb))
    → hand_out percent cg cgs o p ≡ next q
    → Granted c mb percent cg cgs p q
granted c mb percent cg cgs none p q some_mb good e =
    let bad : ⊥ = ground (arith, e) in elim bad [ ]
granted c mb percent cg cgs (some g) p q some_mb good e =
    let (fits, is_mb) = good g refl in
    let after = record p {
      ready = cgs;
      used = cg ∷ p.used;
      groups = update p.groups cg (set_cpu_percent percent g);
    } in
    let same : after ≡ q = cc in
    let self : cg == cg ≡ true = ground arith in
    let (limit, is_limit, above, below) =
      file_near mb g.memory_max some_mb
        (subst (λ (m : ℕ). LimitIs m g.memory_max) is_mb fits.limited) in
    subst (Granted c mb percent cg cgs p) same
      (rw self (refl, refl, fits.procs, fits.swap, omega arith, limit, is_limit, above, below))

get_granted :
    (c : Conf) (mb percent cg : ℕ) (cgs : List ℕ) (p q : CgroupPool)
    → 0 < mb
    → Fits c true (p.groups cg)
    → get_cg c mb percent (cg ∷ cgs) p ≡ next q
    → Granted c mb percent cg cgs p q
unfolding get_cg
get_granted c mb percent cg cgs p q some_mb fits e =
    granted c mb percent cg cgs (set_mem_limit_mb c mb (p.groups cg)) p q some_mb
      (λ g is_g. (
        set_mem_limit_mb-Fits c true mb (p.groups cg) g is_g fits,
        (set_mem_limit_mb_lem c mb (p.groups cg) g is_g).0,
      ))
      e

ready-was_made :
    (p : CgroupPool) (cg : ℕ) (cgs : List ℕ)
    → p.ready ≡ cg ∷ cgs
    → places cg p ≡ made cg p
    → was_made cg p ≡ true
ready-was_made p cg cgs e h = ground (arith, ap (count cg) e)

-- However the pool was used before, also where sandboxes changed the limits of their groups, a call of `GetCg` for a memory limit that is not zero, where it
-- does not panic, hands out the first group that is ready, with the process and swap limits of the
-- settings, the share of the CPU that was asked for, and a memory limit in the kernel within 1 MB of
-- the one asked for. The limit is only written where it differs from the one that the group object
-- holds.
pub get_cg-Granted :
    (c : Conf) (es : List Event) (p q : CgroupPool) (mb percent cg : ℕ) (cgs : List ℕ)
    → run c es new_cgroup_pool ≡ next p
    → p.ready ≡ cg ∷ cgs
    → 0 < mb
    → get_cg c mb percent p.ready p ≡ next q
    → Granted c mb percent cg cgs p q
get_cg-Granted c es p q mb percent cg cgs ran at some_mb e =
    let is_made = ready-was_made p cg cgs at (run-Placed c es p cg ran) in
    get_granted c mb percent cg cgs p q some_mb
      (subst (λ (b : Bool). Fits c b (p.groups cg)) is_made (run-Fit c es p cg ran))
      (subst (λ (qs : List ℕ). get_cg c mb percent qs p ≡ next q) at e)
