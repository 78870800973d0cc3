-- ===== src/MemPool/Order.antt =====
-- The order in which the pool of go/worker/sandbox/memPool.go answers.
use open_lambda.Prelude.{
  ℕ, ◌≡◌, refl, sym, ap, subst, List, [], ◌∷◌, ◌++◌, append-nil, append_assoc, map, some, arith,
  All, if◌then◌else◌,
}
use open_lambda.Prelude.Int.{pos, leb_ℤ}
use open_lambda.MemPool.{MemReq, Response, MemPool, new_mem_pool, accept, serve_front, run}
use open_lambda.MemPool.Bounds.{
  IsValid, Fits, next, sent, mem_task-next, next-Keeps, accept-IsValid,
}

-- The demands among some requests, and the releases, each in order.
abbrev pub demands : List MemReq → List MemReq
demands [] = []
demands (r ∷ rs) = if leb_ℤ (pos 0) r.mb then demands rs else r ∷ demands rs

abbrev pub releases : List MemReq → List MemReq
releases [] = []
releases (r ∷ rs) = if leb_ℤ (pos 0) r.mb then r ∷ releases rs else releases rs

abbrev pub answered : List Response → List MemReq
answered = map (λ r. r.req)

demands-append : (xs ys : List MemReq) → demands (xs ++ ys) ≡ demands xs ++ demands ys
demands-append [] ys = refl
demands-append (x ∷ xs) ys = ground (arith, demands-append xs ys)

releases-append : (xs ys : List MemReq) → releases (xs ++ ys) ≡ releases xs ++ releases ys
releases-append [] ys = refl
releases-append (x ∷ xs) ys = ground (arith, releases-append xs ys)

answered-append : (rs qs : List Response) → answered (rs ++ qs) ≡ answered rs ++ answered qs
answered-append [] qs = refl
answered-append (r ∷ rs) qs = ap (◌∷◌ r.req) (answered-append rs qs)

-- A stretch of the run: the demands answered and those left waiting are those that waited and
-- those that came, in order, and the releases answered are those that came.
pub record InOrder (p q : MemPool) (came : List MemReq) (rs : List Response) : Type 0 where
  pub fifo : demands (answered rs) ++ q.waiting ≡ p.waiting ++ demands came
  pub at_once : releases (answered rs) ≡ releases came

InOrder-trans :
    {p q s : MemPool} (came later : List MemReq) (rs qs : List Response)
    → InOrder p q came rs
    → InOrder q s later qs
    → InOrder p s (came ++ later) (rs ++ qs)
InOrder-trans {p} {q} {s} came later rs qs a b = record {
  fifo = cc (
    a.fifo,
    b.fifo,
    answered-append rs qs,
    demands-append (answered rs) (answered qs),
    demands-append came later,
    append_assoc (demands (answered rs)) (demands (answered qs)) s.waiting,
    append_assoc (demands (answered rs)) q.waiting (demands later),
    append_assoc p.waiting (demands came) (demands later),
  );
  at_once = cc (
    a.at_once,
    b.at_once,
    answered-append rs qs,
    releases-append (answered rs) (answered qs),
    releases-append came later,
  );
}

accept-InOrder : (p : MemPool) (r : MemReq) → InOrder p (accept p r).0 (r ∷ []) (accept p r).1
unfolding accept
accept-InOrder p r = record { fifo = ground (arith, append-nil p.waiting); at_once = ground arith }

serve_front-InOrder :
    (p : MemPool) (ws : List MemReq)
    → p.waiting ≡ ws
    → IsValid p
    → InOrder p (serve_front p).0 [] (serve_front p).1
unfolding serve_front
serve_front-InOrder p [] e v = record {
  fifo = ground (arith, append-nil p.waiting);
  at_once = ground arith;
}
serve_front-InOrder p (w ∷ ws) e v = record {
  fifo = ground (arith, append-nil p.waiting, append-nil ws);
  at_once = ground arith;
}

next-InOrder :
    (p : MemPool) (r : MemReq)
    → IsValid p
    → Fits p.total_mb r
    → InOrder p (next p r) (r ∷ []) (sent p r)
next-InOrder p r v fits =
    let p' = (accept p r).0 in
    InOrder-trans (r ∷ []) [] (accept p r).1 (serve_front p').1 (accept-InOrder p r)
      (serve_front-InOrder p' p'.waiting refl (accept-IsValid p r fits v))

run-InOrder :
    (reqs : List MemReq) (p : MemPool)
    → All (Fits p.total_mb) reqs
    → IsValid p
    → (q : MemPool) × (rs : List Response) × (run p reqs ≡ some (q, rs)) × InOrder p q reqs rs
unfolding run
run-InOrder [] p fits v =
    (p, [], refl, record { fifo = sym (append-nil p.waiting); at_once = refl })
run-InOrder (r ∷ reqs) p fits v =
    let p' = next p r in
    let rs = sent p r in
    let k = next-Keeps p r fits.0 v in
    let (q, rs', e', o) =
      run-InOrder reqs p' (subst (λ t. All (Fits t) reqs) (sym k.same_total) fits.1) k.valid in
    (
      q,
      rs ++ rs',
      rw (mem_task-next p r fits.0, run) (rw (e', run) refl),
      InOrder-trans (r ∷ []) reqs rs rs' (next-InOrder p r v fits.0) o,
    )

-- A new pool of n MB, fed messages that each fit it: the demands answered so far, followed by those
-- that still wait, are the demands in the order in which they came; and the releases answered are
-- all the releases that came, in order, so that none ever waits.
pub run_first_come :
    (n : ℕ) (reqs : List MemReq)
    → All (Fits (pos n)) reqs
    → (q : MemPool) × (rs : List Response) × (run (new_mem_pool (pos n)) reqs ≡ some (q, rs))
      × (demands (answered rs) ++ q.waiting ≡ demands reqs)
      × (releases (answered rs) ≡ releases reqs)
unfolding new_mem_pool
run_first_come n reqs fits =
    let (q, rs, e, o) =
      run-InOrder reqs (new_mem_pool (pos n)) fits
        (record { nonneg = omega arith; demands = tt }) in
    (q, rs, e, o.fifo, o.at_once)
