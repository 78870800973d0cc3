-- ===== src/WorkerPool.antt =====
-- go/boss/cloudvm/worker_pool.go: the workers of a cluster, in one of four maps each, and the queue of
-- those that get tasks. What a method or a goroutine does from lock to unlock is one step. The calls of
-- the cloud platform succeed, since a failure ends the boss. A map is the list of its keys.
pub mod Places
pub mod Policy
pub mod Queue
mod Tests
use open_lambda.Prelude.{
  ℕ, suc, ◌+◌, Bool, true, false, List, [], ◌∷◌, ◌++◌, Option, none, some, if◌then◌else◌, ltb,
  length, erase, elem,
}

-- The maps of `workers`, each by its state, the queue with its capacity, and the number of the next
-- worker.
pub record Pool : Type 0 where
  pub next_id : ℕ
  pub worker_cap : ℕ
  pub starting : List ℕ
  pub running : List ℕ
  pub cleaning : List ℕ
  pub destroying : List ℕ
  pub queue : List ℕ

unfoldable pub new_worker_pool : ℕ → Pool
new_worker_pool worker_cap = record {
  next_id = 1;
  worker_cap = worker_cap;
  starting = [];
  running = [];
  cleaning = [];
  destroying = [];
  queue = [];
}

-- A key is set in a map.
abbrev pub set_key : ℕ → List ℕ → List ℕ
set_key id ks = if elem id ks then ks else id ∷ ks

unfoldable pub start_new_worker : Pool → Pool
start_new_worker p = record p { next_id = p.next_id + 1; starting = set_key p.next_id p.starting }

-- The instance was created; `none` is a queue that is full, which blocks with the lock held.
unfoldable pub worker_started : ℕ → Pool → Option Pool
worker_started id p =
    if ltb (length p.queue) p.worker_cap
    then some (record p {
      starting = erase id p.starting;
      running = set_key id p.running;
      queue = p.queue ++ id ∷ [];
    })
    else none

unfoldable pub recover_worker : ℕ → Pool → Pool
recover_worker id p = record p { cleaning = erase id p.cleaning; running = set_key id p.running }

unfoldable pub clean_worker : ℕ → Pool → Pool
clean_worker id p = record p { running = erase id p.running; cleaning = set_key id p.cleaning }

-- `updateCluster` takes a worker from the queue; `none` is an empty queue, which blocks.
unfoldable pub clean_next : Pool → Option Pool
unfolding clean_worker
clean_next p = elim p.queue [
  | [] ↦ none
  | id ∷ rest ↦ some (clean_worker id (record p { queue = rest }))
]

unfoldable pub destroy_worker : ℕ → Pool → Pool
destroy_worker id p = record p {
  cleaning = erase id p.cleaning;
  destroying = set_key id p.destroying;
}

unfoldable pub worker_destroyed : ℕ → Pool → Pool
worker_destroyed id p = record p { destroying = erase id p.destroying }
