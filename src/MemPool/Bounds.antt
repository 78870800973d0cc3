-- ===== src/MemPool/Bounds.antt =====
-- What is available in the pool of go/worker/sandbox/memPool.go, after any sequence of messages.
use open_lambda.Prelude.{ℕ, ◌<◌, ◌≡◌, refl, List, [], ◌∷◌, ◌++◌, some, arith, ◌∙◌, All, All-append}
use open_lambda.Prelude.Int.{
  ℤ, pos, pos_part, neg_part, ◌+ℤ◌, ◌≤ℤ◌, +ℤ_parts, +ℤ_zero, +ℤ_assoc, eq_of_parts,
}
use open_lambda.MemPool.{
  MemReq, Response, MemPool, new_mem_pool, accept, serve_front, mem_task, run,
}

-- A demand: a negative request that is no larger than the pool.
pub record IsDemand (total : ℤ) (r : MemReq) : Type 0 where
  pub negative : pos_part r.mb < neg_part r.mb
  pub fits : pos 0 ≤ℤ total +ℤ r.mb

pub record IsValid (p : MemPool) : Type 0 where
  pub nonneg : pos 0 ≤ℤ p.available_mb
  pub demands : All (IsDemand p.total_mb) p.waiting

module _ (p : MemPool) where
  pub accept-IsValid :
      (r : MemReq) → pos 0 ≤ℤ p.total_mb +ℤ r.mb → IsValid p → IsValid (accept p r).0
  unfolding accept
  accept-IsValid r h v = ground (
    arith,
    +ℤ_parts p.available_mb r.mb,
    All-append (IsDemand p.total_mb) p.waiting (r ∷ []) v.demands,
  )

  accept-total_mb : (r : MemReq) → (accept p r).0.total_mb ≡ p.total_mb
  unfolding accept
  accept-total_mb r = ground arith

  serve_front-IsValid : (ws : List MemReq) → p.waiting ≡ ws → IsValid p → IsValid (serve_front p).0
  unfolding serve_front
  serve_front-IsValid [] e v = ground arith
  serve_front-IsValid (w ∷ ws) e v = ground arith

  serve_front-total_mb :
      (ws : List MemReq) → p.waiting ≡ ws → (serve_front p).0.total_mb ≡ p.total_mb
  unfolding serve_front
  serve_front-total_mb [] e = ground arith
  serve_front-total_mb (w ∷ ws) e = ground arith

-- The sum of the requests that were answered.
abbrev pub granted : List Response → ℤ
granted [] = pos 0
granted (r ∷ rs) = r.req.mb +ℤ granted rs

pub granted-append : (rs qs : List Response) → granted (rs ++ qs) ≡ granted rs +ℤ granted qs
granted-append [] qs = eq_of_parts _ _ (omega (arith, +ℤ_parts (pos 0) (granted qs)))
granted-append (r ∷ rs) qs = cc (granted-append rs qs, +ℤ_assoc r.req.mb (granted rs) (granted qs))

-- Two stretches of the account join.
account_trans :
    (a b c : ℤ) (rs qs : List Response)
    → b ≡ a +ℤ granted rs
    → c ≡ b +ℤ granted qs
    → c ≡ a +ℤ granted (rs ++ qs)
account_trans a b c rs qs e f =
    cc (e, f, granted-append rs qs, +ℤ_assoc a (granted rs) (granted qs))

accept-granted :
    (p : MemPool) (r : MemReq)
    → (accept p r).0.available_mb ≡ p.available_mb +ℤ granted (accept p r).1
unfolding accept
accept-granted p r = ground (arith, +ℤ_zero r.mb, +ℤ_zero p.available_mb)

serve_front-granted :
    (p : MemPool) (ws : List MemReq)
    → p.waiting ≡ ws
    → (serve_front p).0.available_mb ≡ p.available_mb +ℤ granted (serve_front p).1
unfolding serve_front
serve_front-granted p [] e = ground (arith, +ℤ_zero p.available_mb)
serve_front-granted p (w ∷ ws) e = ground (arith, +ℤ_zero w.mb, +ℤ_zero p.available_mb)

-- What one round and any number of rounds keep.
pub record Keeps (p q : MemPool) (rs : List Response) : Type 0 where
  pub valid : IsValid q
  pub same_total : q.total_mb ≡ p.total_mb
  pub accounted : q.available_mb ≡ p.available_mb +ℤ granted rs

abbrev pub Fits : ℤ → MemReq → Type 0
Fits total r = pos 0 ≤ℤ total +ℤ r.mb

-- The state after a round that does not panic, and what the round sent.
abbrev pub next : MemPool → MemReq → MemPool
next p r = (serve_front (accept p r).0).0

abbrev pub sent : MemPool → MemReq → List Response
sent p r = (accept p r).1 ++ (serve_front (accept p r).0).1

pub mem_task-next :
    (p : MemPool) (r : MemReq) → Fits p.total_mb r → mem_task p r ≡ some (next p r, sent p r)
unfolding mem_task
mem_task-next p r fits = ground arith

pub next-Keeps :
    (p : MemPool) (r : MemReq) → Fits p.total_mb r → IsValid p → Keeps p (next p r) (sent p r)
next-Keeps p r fits v =
    let p' = (accept p r).0 in
    record {
      valid = serve_front-IsValid p' p'.waiting refl (accept-IsValid p r fits v);
      same_total = serve_front-total_mb p' p'.waiting refl ∙ accept-total_mb p r;
      accounted =
          account_trans _ _ _ (accept p r).1 (serve_front p').1 (accept-granted p r)
            (serve_front-granted p' p'.waiting refl);
    }

pub run-Keeps :
    (reqs : List MemReq) (p : MemPool)
    → All (Fits p.total_mb) reqs
    → IsValid p
    → (q : MemPool) × (rs : List Response) × (run p reqs ≡ some (q, rs)) × Keeps p q rs
unfolding run
run-Keeps [] p fits v = (
  p,
  [],
  refl,
  record { valid = v; same_total = refl; accounted = ground (arith, +ℤ_zero p.available_mb) },
)
run-Keeps (r ∷ reqs) p fits v =
    let p' = next p r in
    let rs = sent p r in
    let k = next-Keeps p r fits.0 v in
    let (q, rs', e', k') = run-Keeps reqs p' (rw k.same_total fits.1) k.valid in
    (
      q,
      rs ++ rs',
      rw (mem_task-next p r fits.0, run) (rw (e', run) refl),
      record {
        valid = k'.valid;
        same_total = k'.same_total ∙ k.same_total;
        accounted = account_trans _ _ _ rs rs' k.accounted k'.accounted;
      },
    )

-- From a new pool of n MB and any messages that each fit the pool, the task answers without a
-- panic, what is available never falls below 0, the pool's size stays, and what is available is
-- the size plus the sum of the requests that were answered.
pub run-new_mem_pool :
    (n : ℕ) (reqs : List MemReq)
    → All (Fits (pos n)) reqs
    → (q : MemPool) × (rs : List Response) × (run (new_mem_pool (pos n)) reqs ≡ some (q, rs))
      × (pos 0 ≤ℤ q.available_mb)
      × (q.total_mb ≡ pos n)
      × (q.available_mb ≡ pos n +ℤ granted rs)
unfolding new_mem_pool
run-new_mem_pool n reqs fits =
    let start = new_mem_pool (pos n) in
    let (q, rs, e, k) = run-Keeps reqs start fits (record { nonneg = omega arith; demands = tt }) in
    (q, rs, e, k.valid.nonneg, k.same_total, k.accounted)
