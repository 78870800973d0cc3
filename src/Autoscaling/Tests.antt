-- ===== src/Autoscaling/Tests.antt =====
-- A cluster with work for all its workers, and one that is idle.
use open_lambda.Prelude.{◌≡◌, refl, [], ◌∷◌, some}
use open_lambda.Autoscaling.{Cluster, tasks_per_worker, scale_up, scale_down, scale}

abbrev busy : Cluster
busy = record { running = 150 ∷ 190 ∷ []; starting = 0 }

abbrev idle : Cluster
idle = record { running = 1 ∷ 0 ∷ []; starting = 1 }

scale-busy : scale busy 10 2 ≡ some 4
unfolding scale tasks_per_worker scale_up scale_down
scale-busy = refl
