-- ===== src/MemPool.antt =====
-- go/worker/sandbox/memPool.go: the task that hands out the memory of a worker.
-- A request's response channel is its `id`; a round of `memTask` handles one message and returns
-- the responses that it sends. `none` is the panic on a request that is larger than the pool.
pub mod Bounds
pub mod Order
pub mod Progress
mod Tests
use open_lambda.Prelude.{ℕ, List, [], ◌∷◌, ◌++◌, Option, none, some, if◌then◌else◌}
use open_lambda.Prelude.Int.{ℤ, pos, ◌+ℤ◌, leb_ℤ, ltb_ℤ}

pub record MemReq : Type 0 where
  pub id : ℕ
  pub mb : ℤ

-- A response: the request that it answers and the memory that remains.
pub record Response : Type 0 where
  pub req : MemReq
  pub remaining : ℤ

pub record MemPool : Type 0 where
  pub total_mb : ℤ
  pub available_mb : ℤ
  pub waiting : List MemReq

unfoldable pub new_mem_pool : ℤ → MemPool
new_mem_pool total = record { total_mb = total; available_mb = total; waiting = [] }

-- A release is answered at once, a demand joins the queue.
unfoldable pub accept : MemPool → MemReq → MemPool × List Response
accept p req =
    let now = p.available_mb +ℤ req.mb in
    if leb_ℤ (pos 0) req.mb
    then (record p { available_mb = now }, record { req = req; remaining = now } ∷ [])
    else (record p { waiting = p.waiting ++ req ∷ [] }, [])

-- The policy at the end of a round: the first demand, if there is enough for it.
unfoldable pub serve_front : MemPool → MemPool × List Response
serve_front p = elim p.waiting [
  | [] ↦ (p, [])
  | req ∷ rest ↦
      let now = p.available_mb +ℤ req.mb in
      if leb_ℤ (pos 0) now
      then (
        record p { available_mb = now; waiting = rest },
        record { req = req; remaining = now } ∷ [],
      )
      else (p, [])
]

-- One turn of the loop of `memTask`.
unfoldable pub mem_task : MemPool → MemReq → Option (MemPool × List Response)
mem_task p req =
    let (p', first) = accept p req in
    let (p'', second) = serve_front p' in
    if ltb_ℤ (p.total_mb +ℤ req.mb) (pos 0) then none else some (p'', first ++ second)

-- The loop over the messages that arrive.
unfoldable pub run : MemPool → List MemReq → Option (MemPool × List Response)
run p [] = some (p, [])
run p (req ∷ reqs) = elim (mem_task p req) [
  | none ↦ none
  | some (p', rs) ↦ elim (run p' reqs) [ none ↦ none | some (p'', rs') ↦ some (p'', rs ++ rs') ]
]
