-- ===== src/Latency/Tests.antt =====
-- go/common/stats.go: concrete latencies, and instances of the theorems.
use open_lambda.Prelude.{ℕ, ◌≡◌, List, [], ◌∷◌, none, some}
use open_lambda.Latency.{snapshot_stats, stats_task, Latency}
use open_lambda.Latency.Averages.{shown, snapshot_stats-stats_task}

abbrev three : List (ℕ × ℕ)
three = (7, 10) ∷ (8, 1) ∷ (7, 13) ∷ []

snapshot_stats-stats_task_example :
    (s : List (ℕ × ℕ × ℕ)) × (snapshot_stats (stats_task three []) ≡ some s)
    × (shown 7 s ≡ some (2, 11))
snapshot_stats-stats_task_example = snapshot_stats-stats_task 7 three

abbrev after : Latency
after = record { name = 7; start = none; milliseconds = 3 }
