-- ===== src/Autoscaling/Targets.antt =====
-- The targets that the scaler sets.
use open_lambda.Prelude.{ℕ, ◌+◌, ◌≤◌, ◌<◌, ◌≡◌, ◌⊎◌, false, none, arith, ◌==◌, length}
use native.Mathlib.Nat.{div-eq_of_lt}
use open_lambda.Autoscaling.{
  sum, Cluster, tasks_per_worker, upperbound, lowerbound, scale_up, scale_down, scale,
}

-- How a target may change: it grows above the upper bound and shrinks below the lower one.
abbrev pub Follows : ℕ → ℕ → ℕ → Type 0
Follows tasks target new =
    (new ≡ target)
    ⊎ (((target ≤ new) × (upperbound < tasks)) ⊎ ((new ≤ target) × (tasks < lowerbound)))

average_none :
    (c : Cluster) → sum c.running < length c.running + c.starting → tasks_per_worker c ≡ 0
unfolding tasks_per_worker
average_none c h =
    let workers = length c.running + c.starting in
    let there_are : (workers == 0) ≡ false = ground (arith, h) in rw there_are (div-eq_of_lt h)

-- With fewer tasks than workers that run or start and a target above 1, the scaler divides by 0.
pub scale_panics :
    (c : Cluster) (most target : ℕ)
    → 1 < target
    → sum c.running < length c.running + c.starting
    → scale c most target ≡ none
unfolding scale scale_up scale_down
scale_panics c most target h idle =
    let zero_tasks = average_none c idle in ground (arith, h, zero_tasks)
