-- ===== src/WorkerPool/Tests.antt =====
-- A pool of two workers: 1 is cleaned, 2 runs.
use open_lambda.Prelude.{refl, [], ◌∷◌, arith}
use open_lambda.WorkerPool.{Pool, recover_worker}
use open_lambda.WorkerPool.Places.{recovers, step, Inv, step-Inv}

abbrev two_workers : Pool
two_workers = record {
  next_id = 3;
  worker_cap = 4;
  starting = [];
  running = 2 ∷ [];
  cleaning = 1 ∷ [];
  destroying = [];
  queue = 2 ∷ [];
}

two_workers-Inv : Inv two_workers
two_workers-Inv = (λ j. ground arith, λ j le. ground arith)

step-Inv_example : Inv (record two_workers { running = 1 ∷ 2 ∷ []; cleaning = [] })
unfolding step recover_worker
step-Inv_example =
    step-Inv (recovers 1) two_workers (record two_workers { running = 1 ∷ 2 ∷ []; cleaning = [] })
      two_workers-Inv (omega arith) refl
