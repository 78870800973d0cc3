-- ===== src/SockPool/Tests.antt =====
-- A pool of 1000 MB: a Zygote (1), which forks a leaf (2).
use open_lambda.Prelude.{
  ℕ, ◌+◌, ◌≡◌, refl, Bool, true, false, List, [], ◌∷◌, Option, none, some, arith, All,
}
use open_lambda.SockPool.{
  Container, Ending, Pool, Conf, goes_on, panics, dec_cg_ref_count, destroy, destroy_living, pause,
  pause_living, upsize, unpause_living, Request, finish, fork, new_process, create, Call, creates,
  pauses, unpauses, destroys, call, run, new_sock_pool,
}
use open_lambda.SockPool.Memory.{Terms, Ends}
use open_lambda.SockPool.Runs.{Released, run-Released}
use open_lambda.SockPool.Pausing.{unpause-pause}

abbrev conf : Conf
conf = record { downsize_paused_mem = true; mem_mb = 50 }

abbrev fine : Ending
fine = record { freeze_ok = true; taken = λ (id : ℕ). none }

abbrev request : Option ℕ → ℕ → Bool → Request
request from mb proc_ok = record {
  from = from;
  mem_limit_mb = mb;
  prepared = true;
  usage = 10;
  proc_ok = proc_ok;
  path_ok = true;
  ending = fine;
}

abbrev calls : List Call
calls =
    creates (request none 50 true)
    ∷ creates (request (some 1) 80 true)
    ∷ pauses true fine 20 2
    ∷ destroys fine 1
    ∷ unpauses true fine 2
    ∷ creates (request (some 2) 50 false)
    ∷ []

abbrev zygote : Container
zygote = record {
  id = 1;
  parent = none;
  children = 2 ∷ [];
  dead = true;
  paused = false;
  ref_count = 1;
  limit = 50;
  released = false;
}

abbrev leaf : Container
leaf = record {
  id = 2;
  parent = some 1;
  children = 3 ∷ [];
  dead = false;
  paused = false;
  ref_count = 2;
  limit = 50;
  released = false;
}

abbrev failure : Container
failure = record {
  id = 3;
  parent = none;
  children = [];
  dead = true;
  paused = false;
  ref_count = 0;
  limit = 50;
  released = true;
}

abbrev end_pool : Pool
end_pool = record {
  total_mb = 1000;
  available = 900;
  containers = failure ∷ leaf ∷ zygote ∷ [];
  next_id = 4;
}

run-calls : run conf calls (new_sock_pool 1000) ≡ goes_on end_pool
unfolding run call create new_process fork finish destroy destroy_living dec_cg_ref_count pause
    pause_living upsize unpause_living new_sock_pool
run-calls = refl

-- A fork that fails is among the calls, so a reference may be lost.
abbrev lossy : Terms
lossy = record { mb = 1000; lossless = false }

fine-Ends : Ends fine
fine-Ends = (refl, λ id. refl)

-- The Zygote is destroyed before its leaf, and both are released with the leaf.
abbrev both_end : List Call
both_end =
    creates (request none 50 true)
    ∷ creates (request (some 1) 80 true)
    ∷ pauses false fine 20 2
    ∷ destroys fine 1
    ∷ creates (request none 50 true)
    ∷ []

abbrev third : Container
third = record {
  id = 3;
  parent = none;
  children = [];
  dead = false;
  paused = false;
  ref_count = 1;
  limit = 50;
  released = false;
}

abbrev last_pool : Pool
last_pool = record {
  total_mb = 1000;
  available = 950;
  containers =
      third
      ∷ record leaf { children = []; dead = true; ref_count = 0; limit = 80; released = true }
      ∷ record zygote { children = []; ref_count = 0; released = true }
      ∷ [];
  next_id = 4;
}

run-both_end : run conf both_end (new_sock_pool 1000) ≡ goes_on last_pool
unfolding run call create new_process fork finish destroy destroy_living dec_cg_ref_count pause
    pause_living upsize unpause_living new_sock_pool
run-both_end = refl

run-Released_example : All (Released last_pool.containers) last_pool.containers
run-Released_example =
    run-Released conf 1000 both_end last_pool (omega arith)
      (
        (fine-Ends, omega arith, tt),
        (
          (fine-Ends, omega arith, refl),
          (fine-Ends, (fine-Ends, ((fine-Ends, omega arith, tt), tt))),
        ),
      )
      run-both_end

-- A demand for more than the pool has in all stops the worker.
too_much_panics : create (request none 1001 true) (new_sock_pool 1000) ≡ panics
unfolding create new_sock_pool
too_much_panics = refl

abbrev one_pool : Pool
one_pool = record {
  total_mb = 1000;
  available = 950;
  containers = record zygote { children = []; dead = false } ∷ [];
  next_id = 2;
}

abbrev living : Container
living = record zygote { children = []; dead = false }

unpause-pause_example :
    (q : Pool) × (pause_living conf true fine 20 1 one_pool ≡ goes_on q)
    × (q.available + 20 + 1 ≡ 950 + 50)
    × (unpause_living conf true fine 1 q ≡ goes_on one_pool)
unpause-pause_example =
    unpause-pause conf fine 20 1 one_pool living refl (refl, refl) refl (omega arith) (omega arith)
      refl
