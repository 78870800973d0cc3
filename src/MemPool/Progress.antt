-- ===== src/MemPool/Progress.antt =====
-- When the demands that wait in the pool of go/worker/sandbox/memPool.go are served.
use open_lambda.Prelude.{
  ℕ, ◌+◌, ◌≤◌, ◌≡◌, refl, List, [], ◌∷◌, ◌++◌, map, none, some, arith, All, length,
}
use open_lambda.Prelude.Int.{pos, pos_part, neg_part, ◌+ℤ◌, ◌≤ℤ◌, +ℤ_parts, int_laws}
use open_lambda.MemPool.{
  MemReq, Response, MemPool, new_mem_pool, accept, serve_front, mem_task, run,
}
use open_lambda.MemPool.Bounds.{IsValid, Fits, next, sent, mem_task-next, next-Keeps}

-- The memory that some demands ask for together.
abbrev pub needed : List MemReq → ℕ
needed [] = 0
needed (r ∷ rs) = neg_part r.mb + needed rs

-- `getAvailableMB`: a request of 0 MB.
abbrev pub poll : ℕ → MemReq
poll i = record { id = i; mb = pos 0 }

next-cons :
    (p : MemPool) (r w : MemReq) (ws : List MemReq) (k : ℕ)
    → r.mb ≡ pos k
    → IsValid p
    → p.waiting ≡ w ∷ ws
    → needed p.waiting ≤ pos_part p.available_mb + k
    → ((next p r).waiting ≡ ws) × (needed ws ≤ pos_part (next p r).available_mb)
unfolding accept serve_front
next-cons p r w ws k e v q h =
    ground (arith, +ℤ_parts p.available_mb r.mb, +ℤ_parts (p.available_mb +ℤ r.mb) w.mb)

next-nil : (p : MemPool) (i : ℕ) → p.waiting ≡ [] → (next p (poll i)).waiting ≡ []
unfolding accept serve_front
next-nil p i e = ground arith

-- Where a release leaves enough for all demands that wait, the round that handles it serves the
-- first and no other: the rest wait on, although there is enough for all of them.
pub release_serves_one :
    (p : MemPool) (r w : MemReq) (ws : List MemReq) (k : ℕ)
    → r.mb ≡ pos k
    → IsValid p
    → pos 0 ≤ℤ p.total_mb
    → p.waiting ≡ w ∷ ws
    → needed p.waiting ≤ pos_part p.available_mb + k
    → (q : MemPool) × (rs : List Response) × (mem_task p r ≡ some (q, rs))
      × (q.waiting ≡ ws)
      × (needed ws ≤ pos_part q.available_mb)
release_serves_one p r w ws k e v t q h =
    let fits : Fits p.total_mb r = rw e (omega (int_laws)) in
    let (tail, enough) = next-cons p r w ws k e v q h in
    (next p r, sent p r, mem_task-next p r fits, tail, enough)

drain :
    (ids : List ℕ) (p : MemPool) (ws : List MemReq)
    → p.waiting ≡ ws
    → IsValid p
    → pos 0 ≤ℤ p.total_mb
    → needed ws ≤ pos_part p.available_mb
    → length ws ≤ length ids
    → (q : MemPool) × (rs : List Response) × (run p (map poll ids) ≡ some (q, rs))
      × (q.waiting ≡ [])
unfolding run
drain [] p [] e v t h l = (p, [], refl, e)
drain [] p (w ∷ ws) e v t h l = absurd (omega arith)
drain (i ∷ ids) p [] e v t h l =
    let fits : Fits p.total_mb (poll i) = omega int_laws in
    let k = next-Keeps p (poll i) fits v in
    let (q, rs, e', o) =
      drain ids (next p (poll i)) [] (next-nil p i e) k.valid (rw k.same_total t) (omega arith)
        (omega arith) in
    (q, sent p (poll i) ++ rs, rw (mem_task-next p (poll i) fits, run) (rw (e', run) refl), o)
drain (i ∷ ids) p (w ∷ ws) e v t h l =
    let fits : Fits p.total_mb (poll i) = omega int_laws in
    let k = next-Keeps p (poll i) fits v in
    let (tail, enough) = next-cons p (poll i) w ws 0 refl v e (rw e (omega arith)) in
    let (q, rs, e', o) =
      drain ids (next p (poll i)) ws tail k.valid (rw k.same_total t) enough (omega arith) in
    (q, sent p (poll i) ++ rs, rw (mem_task-next p (poll i) fits, run) (rw (e', run) refl), o)

-- Once the memory suffices for all demands that wait, as many polls as there are demands serve them
-- all.
pub polls_serve_all :
    (p : MemPool) (ids : List ℕ)
    → IsValid p
    → pos 0 ≤ℤ p.total_mb
    → needed p.waiting ≤ pos_part p.available_mb
    → length p.waiting ≤ length ids
    → (q : MemPool) × (rs : List Response) × (run p (map poll ids) ≡ some (q, rs))
      × (q.waiting ≡ [])
polls_serve_all p ids v t h l = drain ids p p.waiting refl v t h l

run_stops :
    (early : List MemReq) (p : MemPool) (r : MemReq) (late : List MemReq)
    → All (Fits p.total_mb) early
    → IsValid p
    → ¬ Fits p.total_mb r
    → run p (early ++ r ∷ late) ≡ none
unfolding run mem_task
run_stops [] p r late fits v big = ground arith
run_stops (x ∷ early) p r late fits v big =
    let k = next-Keeps p x fits.0 v in
    let rest =
      run_stops early (next p x) r late (rw k.same_total fits.1) k.valid (rw k.same_total big) in
    rw (mem_task-next p x fits.0, run) (rw (rest, run) refl)

-- A demand for more than the whole pool stops the task with a panic, whatever came before it.
pub run_oversized :
    (n : ℕ) (early : List MemReq) (r : MemReq) (late : List MemReq)
    → All (Fits (pos n)) early
    → ¬ Fits (pos n) r
    → run (new_mem_pool (pos n)) (early ++ r ∷ late) ≡ none
unfolding new_mem_pool
run_oversized n early r late fits big =
    run_stops early (new_mem_pool (pos n)) r late fits
      (record { nonneg = omega arith; demands = tt }) big
