-- ===== src/WorkerPool/Policy.antt =====
-- What `updateCluster` of go/boss/cloudvm/worker_pool.go decides to do.
use open_lambda.Prelude.{ℕ, ◌+◌, ◌-◌, ◌≤◌, ◌≡◌, arith, if◌then◌else◌, ltb, length}
use open_lambda.WorkerPool.{Pool}

-- `Size`
abbrev pub size : Pool → ℕ
size p = length p.starting + length p.running + length p.cleaning + length p.destroying

-- How many workers to start, to clean or to recover.
pub data Plan : Type 0 where
  to_start to_clean to_recover : ℕ → Plan
  nothing : Plan

-- `toBeClean`, where the size is at least the target. A difference that would fall below 0 is 0 here,
-- and the code asks only whether it is above.
abbrev pub to_be_clean : ℕ → Pool → ℕ
to_be_clean target p = size p - target - length p.cleaning - length p.destroying - length p.starting

abbrev pub to_be_recover : ℕ → Pool → ℕ
to_be_recover target p = target - length p.starting - length p.running

unfoldable pub update_cluster : ℕ → Pool → Plan
update_cluster target p =
    if ltb (size p) target
    then to_start (target - size p)
    else (if ltb 0 (to_be_clean target p)
        then to_clean (to_be_clean target p)
        else (if ltb 0 (to_be_recover target p)
            then to_recover (to_be_recover target p)
            else nothing))

-- What a plan leads to.
abbrev pub Serves : ℕ → Pool → Plan → Type 0
Serves target p (to_start n) = size p + n ≡ target
Serves target p (to_clean n) = length p.running ≡ target + n
Serves target p (to_recover n) =
    (length p.starting + length p.running + n ≡ target)
    × (n ≤ length p.cleaning + length p.destroying)
Serves target p nothing =
    (length p.running ≤ target) × (target ≤ length p.starting + length p.running)

-- The workers that are started bring the cluster to its target; those that are cleaned bring the
-- running ones down to it; those that are recovered bring the starting and the running ones up to it,
-- and are no more than are cleaned or destroyed; and when nothing is done, the running workers are no
-- more than the target, and with the starting ones no fewer.
pub update_cluster_lem : (target : ℕ) (p : Pool) → Serves target p (update_cluster target p)
unfolding update_cluster
update_cluster_lem target p = ground arith
