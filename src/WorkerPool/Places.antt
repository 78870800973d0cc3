-- ===== src/WorkerPool/Places.antt =====
-- In which maps a worker of the cluster stands.
use open_lambda.Prelude.{
  ℕ, ◌+◌, ◌≤◌, ◌≡◌, ◌≢◌, inl, inr, refl, ◌∙◌, false, List, [], ◌∷◌, Option, some, arith, ◌==◌,
  count, elem, erase, count-erase_self, eq_of-some, subst, count-erase_ne, Bool-cases,
}
use open_lambda.WorkerPool.{
  Pool, set_key, start_new_worker, worker_started, recover_worker, clean_worker, destroy_worker,
  worker_destroyed,
}

-- In how many maps a worker stands.
abbrev pub places : ℕ → Pool → ℕ
places id p = count id p.starting + count id p.running + count id p.cleaning + count id p.destroying

count-set_key_ne : (id j : ℕ) (ks : List ℕ) → id ≢ j → count j (set_key id ks) ≡ count j ks
count-set_key_ne id j ks ne = ground arith

elem-count : (id : ℕ) (ks : List ℕ) → count id ks ≡ 0 → elem id ks ≡ false
elem-count id [] h = refl
elem-count id (k ∷ ks) h = ground (arith, elem-count id ks)

count-set_key_new : (id : ℕ) (ks : List ℕ) → count id ks ≡ 0 → count id (set_key id ks) ≡ 1
count-set_key_new id ks h = let e = elem-count id ks h in ground (arith, e)

pub data Step : Type 0 where
  starts : Step
  started recovers cleans destroys destroyed : ℕ → Step

unfoldable pub step : Step → Pool → Option Pool
step starts p = some (start_new_worker p)
step (started id) p = worker_started id p
step (recovers id) p = some (recover_worker id p)
step (cleans id) p = some (clean_worker id p)
step (destroys id) p = some (destroy_worker id p)
step (destroyed id) p = some (worker_destroyed id p)

-- The worker of a step stands in the map that the step takes it from.
abbrev pub Possible : Step → Pool → Type 0
Possible starts p = Unit
Possible (started id) p = 1 ≤ count id p.starting
Possible (recovers id) p = 1 ≤ count id p.cleaning
Possible (cleans id) p = 1 ≤ count id p.running
Possible (destroys id) p = 1 ≤ count id p.cleaning
Possible (destroyed id) p = 1 ≤ count id p.destroying

-- No worker stands in two maps, and none has a number that is still to be given.
abbrev pub Inv : Pool → Type 0
Inv p = ((j : ℕ) → places j p ≤ 1) × ((j : ℕ) → p.next_id ≤ j → places j p ≡ 0)

-- A worker goes from one map to another.
moved :
    (id j : ℕ) (from to : List ℕ)
    → 1 ≤ count id from
    → count id to ≡ 0
    → count j (erase id from) + count j (set_key id to) ≡ count j from + count j to
moved id j from to h k = elim (Bool-cases (id == j)) [
  | inl same ↦
      let e : id ≡ j = ground arith in
      ground (arith, e, h, k, count-erase_self j from, count-set_key_new j to)
  | inr other ↦
      let ne : id ≢ j = ground arith in
      omega (arith, count-erase_ne id j from ne, count-set_key_ne id j to ne)
]

Inv-same :
    (p q : Pool) → ((j : ℕ) → places j q ≡ places j p) → q.next_id ≡ p.next_id → Inv p → Inv q
Inv-same p q same e (one, new) =
    (λ j. omega (arith, same j, one j), λ j le. same j ∙ new j (omega (arith, le, e)))

started-Inv :
    (id : ℕ) (p q : Pool) → Inv p → 1 ≤ count id p.starting → worker_started id p ≡ some q → Inv q
unfolding worker_started
started-Inv id p q inv h e =
    let now : (q.next_id ≡ p.next_id)
        × (q.starting ≡ erase id p.starting)
        × (q.running ≡ set_key id p.running)
        × (q.cleaning ≡ p.cleaning)
        × (q.destroying ≡ p.destroying) =
      ground arith in
    let none_running : count id p.running ≡ 0 = omega (arith, inv.0 id, h) in
    Inv-same p q
      (λ j.
        rw (now.1, now.2, now.3, now.4)
          (omega (arith, moved id j p.starting p.running h none_running)))
      now.0 inv

recover-Inv : (id : ℕ) (p : Pool) → Inv p → 1 ≤ count id p.cleaning → Inv (recover_worker id p)
unfolding recover_worker
recover-Inv id p inv h =
    let free : count id p.running ≡ 0 = omega (arith, inv.0 id, h) in
    Inv-same p (recover_worker id p) (λ j. omega (arith, moved id j p.cleaning p.running h free))
      refl inv

clean-Inv : (id : ℕ) (p : Pool) → Inv p → 1 ≤ count id p.running → Inv (clean_worker id p)
unfolding clean_worker
clean-Inv id p inv h =
    let free : count id p.cleaning ≡ 0 = omega (arith, inv.0 id, h) in
    Inv-same p (clean_worker id p) (λ j. omega (arith, moved id j p.running p.cleaning h free)) refl
      inv

destroy-Inv : (id : ℕ) (p : Pool) → Inv p → 1 ≤ count id p.cleaning → Inv (destroy_worker id p)
unfolding destroy_worker
destroy-Inv id p inv h =
    let free : count id p.destroying ≡ 0 = omega (arith, inv.0 id, h) in
    Inv-same p (destroy_worker id p) (λ j. omega (arith, moved id j p.cleaning p.destroying h free))
      refl inv

count-erase-le : (id j : ℕ) (ks : List ℕ) → count j (erase id ks) ≤ count j ks
count-erase-le id j [] = omega arith
count-erase-le id j (k ∷ ks) = ground (arith, count-erase-le id j ks)

destroyed-Inv : (id : ℕ) (p : Pool) → Inv p → Inv (worker_destroyed id p)
unfolding worker_destroyed
destroyed-Inv id p (one, new) = (
  λ j. omega (arith, one j, count-erase-le id j p.destroying),
  λ j le. omega (arith, new j le, count-erase-le id j p.destroying),
)

start-Inv : (p : Pool) → Inv p → Inv (start_new_worker p)
unfolding start_new_worker
start-Inv p (one, new) =
    let fresh = new p.next_id (omega arith) in
    let first : count p.next_id p.starting ≡ 0 = omega (arith, fresh) in
    (
      λ j. elim (Bool-cases (p.next_id == j)) [
        | inl same ↦
            let e : p.next_id ≡ j = ground arith in
            ground (arith, e, fresh, count-set_key_new p.next_id p.starting first)
        | inr other ↦ omega (arith, one j, count-set_key_ne p.next_id j p.starting (ground arith))
      ],
      λ j le. omega (
        arith,
        new j (omega (arith, le)),
        count-set_key_ne p.next_id j p.starting (omega (arith, le)),
      ),
    )

-- A step that does not block, on a worker that stands where the step takes it from, leaves each worker
-- in at most one of the four maps, and the numbers that are still to be given unused.
pub step-Inv : (s : Step) (p q : Pool) → Inv p → Possible s p → step s p ≡ some q → Inv q
unfolding step
step-Inv starts p q inv h e = subst Inv (eq_of-some e) (start-Inv p inv)
step-Inv (started id) p q inv h e = started-Inv id p q inv h e
step-Inv (recovers id) p q inv h e = subst Inv (eq_of-some e) (recover-Inv id p inv h)
step-Inv (cleans id) p q inv h e = subst Inv (eq_of-some e) (clean-Inv id p inv h)
step-Inv (destroys id) p q inv h e = subst Inv (eq_of-some e) (destroy-Inv id p inv h)
step-Inv (destroyed id) p q inv h e = subst Inv (eq_of-some e) (destroyed-Inv id p inv)

-- A worker that is recovered from the maps of an undamaged pool does not go back to the queue, and if the
-- goroutine that cleaned it then destroys it, it stands among the running workers and those being
-- destroyed at once, and in one map still when it is gone.
pub recover-destroy :
    (id : ℕ) (p : Pool)
    → Inv p
    → 1 ≤ count id p.cleaning
    → (places id (destroy_worker id (recover_worker id p)) ≡ 2)
      × (places id (worker_destroyed id (destroy_worker id (recover_worker id p))) ≡ 1)
      × ((recover_worker id p).queue ≡ p.queue)
unfolding recover_worker destroy_worker worker_destroyed
recover-destroy id p (one, new) h =
    let run : count id (set_key id p.running) ≡ 1 =
      count-set_key_new id p.running (omega (arith, one id, h)) in
    let end : count id (set_key id p.destroying) ≡ 1 =
      count-set_key_new id p.destroying (omega (arith, one id, h)) in
    (
      omega (
        arith,
        one id,
        h,
        run,
        end,
        count-erase_self id p.cleaning,
        count-erase_self id (erase id p.cleaning),
      ),
      omega (
        arith,
        one id,
        h,
        run,
        end,
        count-erase_self id p.cleaning,
        count-erase_self id (erase id p.cleaning),
        count-erase_self id (set_key id p.destroying),
      ),
      refl,
    )
