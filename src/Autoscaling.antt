-- ===== src/Autoscaling.antt =====
-- go/boss/autoscaling/threshold.go: the target of the worker pool by the tasks of its workers, which
-- `StatusTasks` (go/boss/cloudvm/worker_pool.go) averages. `none` is the panic of a division by 0.
pub mod Targets
mod Tests
use open_lambda.Prelude.{
  ℕ, ◌+◌, ◌-◌, ◌/◌, Bool, true, false, ◌&&◌, List, [], ◌∷◌, Option, none, some, if◌then◌else◌, ltb,
  ◌==◌, length,
}

abbrev pub sum : List ℕ → ℕ
sum [] = 0
sum (n ∷ ns) = n + sum ns

-- The tasks of the running workers, and how many workers are starting.
pub record Cluster : Type 0 where
  pub running : List ℕ
  pub starting : ℕ

unfoldable pub tasks_per_worker : Cluster → ℕ
tasks_per_worker c =
    let workers = length c.running + c.starting in
    if workers == 0 then 0 else sum c.running / workers

abbrev pub upperbound : ℕ
upperbound = 80

abbrev pub lowerbound : ℕ
lowerbound = 30

unfoldable pub scale_up : ℕ → ℕ → ℕ → ℕ
scale_up tasks cap target =
    if ltb target cap && ltb upperbound tasks then target + tasks / upperbound else target

-- The new target, at least 1; a difference below 0 stops at 0 here.
abbrev pub lowered : ℕ → ℕ → ℕ
lowered tasks target =
    let new_target = target - lowerbound / tasks in if ltb new_target 1 then 1 else new_target

unfoldable pub scale_down : ℕ → ℕ → Option ℕ
scale_down tasks target =
    if ltb 1 target && ltb tasks lowerbound
    then (if tasks == 0 then none else some (lowered tasks target))
    else some target

-- `Scale`
unfoldable pub scale : Cluster → ℕ → ℕ → Option ℕ
scale c cap target = let tasks = tasks_per_worker c in scale_down tasks (scale_up tasks cap target)

-- The timer for inactivity that `Scale` sets.
unfoldable pub on_inactivity : ℕ → ℕ
on_inactivity target = if ltb 1 target then 1 else target
