-- ===== src/BossTriggers/Jobs.antt =====
-- The entries of the cron library are those that the scheduler knows, function by function.
use open_lambda.Prelude.{
  ℕ, suc, ◌+◌, ◌≤◌, ◌<◌, ◌≡◌, refl, ◌∙◌, ap, subst, Bool, true, false, inl, inr, List, [], ◌∷◌,
  ◌++◌, Option, none, some, arith, if◌then◌else◌, ◌==◌, count, count-append, elem, All, Bool-cases,
}
use open_lambda.Prelude.Maps.{update}
use open_lambda.BossTriggers.{
  Scheduler, ids_of, add_job, register_cron, remove, remove_jobs, unregister_cron, Manager, Managed,
  Answers, Trigger, Effect, register_consumers, register_triggers, register, unregister, Call,
  registers, unregisters, call, run, new_manager,
}

abbrev pub entries_of : ℕ → List (ℕ × ℕ) → List ℕ
entries_of f [] = []
entries_of f ((id, g) ∷ es) = let rest = entries_of f es in if g == f then id ∷ rest else rest

abbrev all_ids : List (ℕ × ℕ) → List ℕ
all_ids [] = []
all_ids ((id, g) ∷ es) = id ∷ all_ids es

-- The scheduler knows the entries of a function; numbers of entries are used once.
abbrev Known : Scheduler → Type 0
Known c =
    ((f id : ℕ) → count id (entries_of f c.entries) ≡ count id (ids_of (c.jobs f)))
    × ((id : ℕ) → count id (all_ids c.entries) ≤ 1)
    × All (λ i. i < c.next_entry) (all_ids c.entries)

count_fresh : (n : ℕ) (is : List ℕ) → All (λ i. i < n) is → count n is ≡ 0
count_fresh n [] h = refl
count_fresh n (i ∷ is) (h, hs) = ground (arith, h, count_fresh n is hs)

lt_suc : (n : ℕ) (is : List ℕ) → All (λ i. i < n) is → All (λ i. i < suc n) is
lt_suc n [] h = tt
lt_suc n (i ∷ is) (h, hs) = (omega (arith, h), lt_suc n is hs)

count_snoc :
    (id n : ℕ) (is js : List ℕ)
    → count id is ≡ count id js
    → count id (n ∷ is) ≡ count id (js ++ n ∷ [])
count_snoc id n is js h = let split = count-append id js (n ∷ []) in ground (arith, h, split)

add_job-Known : (f : ℕ) (c : Scheduler) → Known c → Known (add_job f c)
unfolding add_job
add_job-Known f c (known, once, below) =
    let n = c.next_entry in
    (
      λ g id. elim (Bool-cases (f == g)) [
        | inl same ↦
            let is_f : f ≡ g = ground (arith, same) in
            let before =
              subst (λ h. count id (entries_of h c.entries) ≡ count id (ids_of (c.jobs f))) is_f
                (known f id) in
            rw same (count_snoc id n (entries_of g c.entries) (ids_of (c.jobs f)) before)
        | inr differs ↦ rw differs (known g id)
      ],
      λ id. ground (arith, once id, count_fresh n (all_ids c.entries) below),
      (omega arith, lt_suc n (all_ids c.entries) below),
    )

count-remove_in :
    (g id : ℕ) (ids : List ℕ) (es : List (ℕ × ℕ))
    → elem id ids ≡ true
    → count id (entries_of g (remove ids es)) ≡ 0
count-remove_in g id ids [] h = refl
count-remove_in g id ids ((i, k) ∷ es) h =
    let below = count-remove_in g id ids es h in
    elim (Bool-cases (i == id)) [
      | inl same ↦
          let is_id : i ≡ id = ground (arith, same) in
          let gone : elem i ids ≡ true = rw is_id h in rw gone below
      | inr differs ↦ ground (arith, below, differs)
    ]

count-remove_out :
    (g id : ℕ) (ids : List ℕ) (es : List (ℕ × ℕ))
    → elem id ids ≡ false
    → count id (entries_of g (remove ids es)) ≡ count id (entries_of g es)
count-remove_out g id ids [] h = refl
count-remove_out g id ids ((i, k) ∷ es) h =
    let below = count-remove_out g id ids es h in
    elim (Bool-cases (i == id)) [
      | inl same ↦
          let is_id : i ≡ id = ground (arith, same) in
          let stays : elem i ids ≡ false = rw is_id h in ground (arith, below, stays)
      | inr differs ↦ ground (arith, below, differs)
    ]

count-two :
    (f g id : ℕ) (es : List (ℕ × ℕ))
    → (f == g) ≡ false
    → count id (entries_of f es) + count id (entries_of g es) ≤ count id (all_ids es)
count-two f g id [] h = omega arith
count-two f g id ((i, k) ∷ es) h = ground (arith, count-two f g id es h, h)

count-elem : (id : ℕ) (is : List ℕ) → elem id is ≡ true → 1 ≤ count id is
count-elem id [] h = ground arith
count-elem id (i ∷ is) h = ground (arith, count-elem id is)

count-absent : (id : ℕ) (is : List ℕ) → elem id is ≡ false → count id is ≡ 0
count-absent id [] h = refl
count-absent id (i ∷ is) h = ground (arith, h, count-absent id is)

remove-once :
    (id : ℕ) (ids : List ℕ) (es : List (ℕ × ℕ))
    → count id (all_ids (remove ids es)) ≤ count id (all_ids es)
remove-once id ids [] = omega arith
remove-once id ids ((i, k) ∷ es) = ground (arith, remove-once id ids es)

remove-below :
    (n : ℕ) (ids : List ℕ) (es : List (ℕ × ℕ))
    → All (λ i. i < n) (all_ids es)
    → All (λ i. i < n) (all_ids (remove ids es))
remove-below n ids [] h = tt
remove-below n ids ((i, k) ∷ es) (h, hs) = elim (Bool-cases (elem i ids)) [
  | inl gone ↦ rw gone (remove-below n ids es hs)
  | inr stays ↦ rw stays (h, remove-below n ids es hs)
]

register_cron-Known :
    (parses : ℕ → Bool) (f : ℕ) (ts : List ℕ) (c : Scheduler)
    → Known c
    → Known (register_cron parses f ts c).1
unfolding register_cron
register_cron-Known parses f [] c h = h
register_cron-Known parses f (t ∷ ts) c h = elim (Bool-cases (parses t)) [
  | inl ok ↦ rw ok (register_cron-Known parses f ts (add_job f c) (add_job-Known f c h))
  | inr bad ↦ rw bad h
]

-- The entries of a function after the scheduler's list of them is removed.
removed_jobs :
    (f g id : ℕ) (ids : List ℕ) (c : Scheduler)
    → Known c
    → c.jobs f ≡ some ids
    → count id (entries_of g (remove ids c.entries)) ≡ count id (ids_of (update c.jobs f none g))
removed_jobs f g id ids c (known, once, below) e =
    let mine : count id (entries_of f c.entries) ≡ count id ids =
      known f id ∙ ap (λ o. count id (ids_of o)) e in
    elim (Bool-cases (elem id ids)) [
      | inl listed ↦
          let gone = count-remove_in g id ids c.entries listed in
          elim (Bool-cases (f == g)) [
            | inl same ↦ rw (same, gone) refl
            | inr differs ↦ rw differs (
                omega (
                  arith,
                  gone,
                  known g id,
                  mine,
                  once id,
                  count-elem id ids listed,
                  count-two f g id c.entries differs,
                ))
          ]
      | inr unlisted ↦
          let stays = count-remove_out g id ids c.entries unlisted in
          elim (Bool-cases (f == g)) [
            | inl same ↦
                let is_f : f ≡ g = ground (arith, same) in
                let mine_g =
                  subst (λ h. count id (entries_of h c.entries) ≡ count id ids) is_f mine in
                rw same (omega (arith, stays, mine_g, count-absent id ids unlisted))
            | inr differs ↦ rw differs (stays ∙ known g id)
          ]
    ]

remove_jobs-Known :
    (f : ℕ) (c : Scheduler) (o : Option (List ℕ))
    → Known c
    → c.jobs f ≡ o
    → Known (remove_jobs f c o)
remove_jobs-Known f c none h e = h
remove_jobs-Known f c (some ids) h e =
    let (known, once, below) = h in
    (
      λ g id. removed_jobs f g id ids c h e,
      λ id. omega (arith, once id, remove-once id ids c.entries),
      remove-below c.next_entry ids c.entries below,
    )

unregister_cron-Known : (f : ℕ) (c : Scheduler) → Known c → Known (unregister_cron f c)
unfolding unregister_cron
unregister_cron-Known f c h = remove_jobs-Known f c (c.jobs f) h refl

register_consumers-Known :
    (a : Answers) (f : ℕ) (ts : List Trigger) (es : List Effect) (m : Manager)
    (o : Bool × Scheduler)
    → Known o.1
    → Known (register_consumers a f ts es m.kafka_manager o).2.cron_scheduler
register_consumers-Known a f ts es m (false, c) h = h
register_consumers-Known a f ts es m (true, c) h = h

register_triggers-Known :
    (a : Answers) (parses : ℕ → Bool) (f : ℕ) (schedules : List ℕ) (ts : List Trigger) (o : Managed)
    → Known o.2.cron_scheduler
    → Known (register_triggers a parses f schedules ts o).2.cron_scheduler
register_triggers-Known a parses f schedules ts (false, es, m) h = h
register_triggers-Known a parses f schedules ts (true, es, m) h =
    register_consumers-Known a f ts es m (register_cron parses f schedules m.cron_scheduler)
      (register_cron-Known parses f schedules m.cron_scheduler h)

call-Known : (o : Call) (m : Manager) → Known m.cron_scheduler → Known (call o m).2.cron_scheduler
unfolding call register unregister
call-Known (registers a parses f schedules ts) m h =
    register_triggers-Known a parses f schedules ts (unregister a f m)
      (unregister_cron-Known f m.cron_scheduler h)
call-Known (unregisters a f) m h = unregister_cron-Known f m.cron_scheduler h

run-Known :
    (os : List Call) (m : Manager) → Known m.cron_scheduler → Known (run os m).cron_scheduler
unfolding run
run-Known [] m h = h
run-Known (o ∷ os) m h = run-Known os (call o m).2 (call-Known o m h)

-- After any registrations and ends of them, whatever fails, the jobs of a function in the cron library
-- are those that the scheduler would remove for it.
pub run_jobs :
    (os : List Call) (f id : ℕ)
    → count id (entries_of f (run os new_manager).cron_scheduler.entries)
      ≡ count id (ids_of ((run os new_manager).cron_scheduler.jobs f))
unfolding new_manager
run_jobs os f id = (run-Known os new_manager (λ g i. refl, (λ i. omega arith), tt)).0 f id
