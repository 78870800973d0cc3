-- ===== src/MemPool/Tests.antt =====
-- A pool of 10 MB at work: test data, and the theorems about it at concrete inputs.
use open_lambda.Prelude.{ℕ, ◌≡◌, refl, List, [], ◌∷◌, ◌++◌, map, some, arith}
use open_lambda.Prelude.Int.{pos, negsuc, ◌+ℤ◌, ◌≤ℤ◌}
use open_lambda.MemPool.{
  MemReq, Response, MemPool, new_mem_pool, accept, serve_front, mem_task, run,
}
use open_lambda.MemPool.Bounds.{IsValid, granted, run-new_mem_pool}
use open_lambda.MemPool.Order.{demands, answered, releases, run_first_come}
use open_lambda.MemPool.Progress.{poll, polls_serve_all}

abbrev demand_six : ℕ → MemReq
demand_six i = record { id = i; mb = negsuc 5 }

abbrev demand_four : ℕ → MemReq
demand_four i = record { id = i; mb = negsuc 3 }

abbrev release_ten : ℕ → MemReq
release_ten i = record { id = i; mb = pos 10 }

abbrev traffic : List MemReq
traffic = demand_six 1 ∷ demand_six 2 ∷ demand_four 3 ∷ record { id = 4; mb = pos 6 } ∷ []

-- The demand of 4 MB would fit, and waits behind the second demand of 6 MB.
run-traffic :
    run (new_mem_pool (pos 10)) traffic
    ≡ some (
      record { total_mb = pos 10; available_mb = pos 4; waiting = demand_four 3 ∷ [] },
      record { req = demand_six 1; remaining = pos 4 }
          ∷ record { req = record { id = 4; mb = pos 6 }; remaining = pos 10 }
          ∷ record { req = demand_six 2; remaining = pos 4 }
          ∷ [],
    )
unfolding run mem_task accept serve_front new_mem_pool ◌+ℤ◌
run-traffic = refl

run-new_mem_pool_example :
    (q : MemPool) × (rs : List Response) × (run (new_mem_pool (pos 10)) traffic ≡ some (q, rs))
    × (pos 0 ≤ℤ q.available_mb)
    × (q.total_mb ≡ pos 10)
    × (q.available_mb ≡ pos 10 +ℤ granted rs)
unfolding ◌+ℤ◌
run-new_mem_pool_example = run-new_mem_pool 10 traffic (omega arith)

run_first_come_example :
    (q : MemPool) × (rs : List Response) × (run (new_mem_pool (pos 10)) traffic ≡ some (q, rs))
    × (demands (answered rs) ++ q.waiting ≡ demands traffic)
    × (releases (answered rs) ≡ releases traffic)
unfolding ◌+ℤ◌
run_first_come_example = run_first_come 10 traffic (omega arith)

-- Nothing is free, and two demands wait.
abbrev full : MemPool
full = record {
  total_mb = pos 10;
  available_mb = pos 0;
  waiting = demand_six 1 ∷ demand_four 2 ∷ [];
}

full-IsValid : IsValid full
unfolding ◌+ℤ◌
full-IsValid = omega arith

abbrev free : MemPool
free = record full { available_mb = pos 10 }

free-IsValid : IsValid free
unfolding ◌+ℤ◌
free-IsValid = omega arith

polls_serve_all_example :
    (q : MemPool) × (rs : List Response) × (run free (map poll (7 ∷ 8 ∷ [])) ≡ some (q, rs))
    × (q.waiting ≡ [])
polls_serve_all_example =
    polls_serve_all free (7 ∷ 8 ∷ []) free-IsValid (omega arith) (omega arith) (omega arith)
