-- ===== src/WorkerPool/Queue.antt =====
-- Which worker gets the next task (`RunLambda` and `GetWorker` of go/boss/cloudvm/worker_pool.go).
use open_lambda.Prelude.{
  ℕ, ◌+◌, ◌≡◌, refl, Bool, false, List, [], ◌∷◌, ◌++◌, Option, none, some, arith, if◌then◌else◌,
  ◌==◌, length, count, count-append,
}
use open_lambda.WorkerPool.{Pool}

-- The first worker of the queue goes to its end; `none` is an empty queue, which blocks.
unfoldable pub rotate : Pool → Option (ℕ × Pool)
rotate p = elim p.queue [ [] ↦ none | id ∷ rest ↦ some (id, record p { queue = rest ++ id ∷ [] }) ]

-- What a request is answered: an error where no worker starts or runs, and the worker that serves it.
-- `RunLambda` goes on to take a worker after the error, where `GetWorker` returns.
pub data Answer : Type 0 where
  no_worker blocked : Answer
  served : Bool → ℕ → Pool → Answer

abbrev pub is_idle : Pool → Bool
is_idle p = length p.starting + length p.running == 0

abbrev pub serve : Bool → Option (ℕ × Pool) → Answer
serve failed none = blocked
serve failed (some (id, p)) = served failed id p

unfoldable pub run_lambda : Pool → Answer
unfolding rotate
run_lambda p = serve (is_idle p) (rotate p)

unfoldable pub get_worker : Pool → Answer
unfolding rotate
get_worker p = if is_idle p then no_worker else serve false (rotate p)

-- `StatusCluster`: starting, running, cleaning, destroying.
unfoldable pub status_cluster : Pool → ℕ × ℕ × ℕ × ℕ
status_cluster p = (length p.starting, length p.running, length p.cleaning, length p.destroying)

rotate_from :
    (ks : List ℕ) (p q : Pool) (id j : ℕ)
    → p.queue ≡ ks
    → rotate p ≡ some (id, q)
    → (count j q.queue ≡ count j ks) × (status_cluster q ≡ status_cluster p)
unfolding rotate status_cluster
rotate_from [] p q id j h e = ground (arith, h)
rotate_from (k ∷ rest) p q id j h e =
    let same : q ≡ record p { queue = rest ++ k ∷ [] } = ground (arith, h) in
    rw same (ground (arith, count-append j rest (k ∷ [])), refl)

-- Taking a worker keeps every worker in the queue as often as before, and the maps as they are.
rotate_keeps :
    (p q : Pool) (id j : ℕ)
    → rotate p ≡ some (id, q)
    → (count j q.queue ≡ count j p.queue) × (status_cluster q ≡ status_cluster p)
rotate_keeps p q id j e = rotate_from p.queue p q id j refl e
