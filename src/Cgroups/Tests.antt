-- ===== src/Cgroups/Tests.antt =====
-- go/worker/sandbox/cgroups: concrete runs, and instances of the theorems.
use open_lambda.Prelude.{ℕ, ◌≡◌, refl, Bool, true, false, List, [], ◌∷◌, some, arith, ◌+◌, count}
use open_lambda.Prelude.Int.{pos}
use open_lambda.Prelude.Texts.{Text}
use open_lambda.Cgroups.{
  Conf, CgroupPool, Outcome, next, waits, panics, offering, stopped, Event, fetches, offers, quits,
  gets, releases, freezes, resizes, resize, step, run, cg_task_fetch, cg_task_offer, get_cg,
  set_freeze_state, kill_and_release, set_mem_limit_mb, new_cgroup_pool,
}
use open_lambda.Cgroups.Steps.{places, made}
use open_lambda.Cgroups.Places.{run-Placed}
use open_lambda.Cgroups.Limits.{Granted, get_cg-Granted}
use open_lambda.Cgroups.Shutdown.{draining_rounds, destroy-Emptied}
use open_lambda.Cgroups.Files.{Reading, try_read_int_kv, reads}
use open_lambda.Cgroups.Reading.{print_file, try_read_int_kv-print_file}

abbrev conf : Conf
conf = record { reuse_cgroups = true; procs = 10; swappiness = 0; rounds = λ (n : ℕ). n }

abbrev removes : ℕ → Bool
removes i = true

-- Group 1 is used, is paused with a smaller limit, released and taken from the queue of recycled groups; group 2 is offered.
abbrev used_once : List Event
used_once =
    fetches true
    ∷ offers
    ∷ fetches true
    ∷ gets 50 100
    ∷ freezes true 1
    ∷ resizes 20 1
    ∷ releases true removes 1
    ∷ offers
    ∷ fetches true
    ∷ []

abbrev pool_of : Outcome → CgroupPool
pool_of (next p) = p
pool_of waits = new_cgroup_pool
pool_of panics = new_cgroup_pool

abbrev after : List Event → CgroupPool
after es = pool_of (run conf es new_cgroup_pool)

recycled_group : run conf used_once new_cgroup_pool ≡ next (after used_once)
unfolding run step cg_task_fetch cg_task_offer get_cg set_freeze_state resize kill_and_release
    set_mem_limit_mb
recycled_group = refl

in_hand_again : (after used_once).phase ≡ offering 1
unfolding run step cg_task_fetch cg_task_offer get_cg set_freeze_state resize kill_and_release
    set_mem_limit_mb
in_hand_again = refl

run-Placed_example : places 1 (after used_once) ≡ made 1 (after used_once)
run-Placed_example = run-Placed conf used_once (after used_once) 1 recycled_group

destroy-Emptied_example :
    (q : CgroupPool) × (run conf
        (quits removes ∷ draining_rounds removes (true ∷ false ∷ []))
        (after used_once)
      ≡ next q)
    × (q.phase ≡ stopped)
    × (q.ready ≡ [])
    × (q.recycled ≡ [])
    × (q.used ≡ (after used_once).used)
    × (count 2 q.used + count 2 q.removed ≡ made 2 q)
unfolding run step cg_task_fetch cg_task_offer get_cg set_freeze_state resize kill_and_release
    set_mem_limit_mb
destroy-Emptied_example =
    destroy-Emptied conf used_once removes true (false ∷ []) (after used_once) 1 2 recycled_group
      in_hand_again refl refl

get_cg-Granted_example :
    Granted conf 80 200 2 []
      (after used_once)
      (pool_of (get_cg conf 80 200 (after used_once).ready (after used_once)))
unfolding run step cg_task_fetch cg_task_offer get_cg set_freeze_state resize kill_and_release
    set_mem_limit_mb
get_cg-Granted_example =
    get_cg-Granted conf used_once (after used_once)
      (pool_of (get_cg conf 80 200 (after used_once).ready (after used_once))) 80 200 2 []
      recycled_group refl (omega arith) refl

abbrev oom_kill : Text
oom_kill = 111 ∷ 111 ∷ 109 ∷ []

try_read_int_kv-print_file_example :
    try_read_int_kv oom_kill (some (print_file ((104 ∷ [], 3) ∷ (oom_kill, 12) ∷ [])))
    ≡ reads (pos 12)
try_read_int_kv-print_file_example =
    try_read_int_kv-print_file oom_kill ((104 ∷ [], 3) ∷ (oom_kill, 12) ∷ [])
      (((refl, tt), omega arith), (((refl, (refl, (refl, tt))), omega arith), tt))

missing_key : try_read_int_kv oom_kill (some (print_file ((104 ∷ [], 3) ∷ []))) ≡ Reading.panics
unfolding try_read_int_kv
missing_key = refl
