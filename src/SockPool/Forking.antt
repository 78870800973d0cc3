-- ===== src/SockPool/Forking.antt =====
-- A fork that fails after it counted the child: the parent keeps the count for ever.
use open_lambda.Prelude.{
  ℕ, suc, ◌+◌, ◌-◌, ◌≤◌, ◌<◌, ◌≡◌, ◌∙◌, ap, true, false, inl, inr, List, [], ◌∷◌, Option, none,
  some, arith, ◌==◌, ltb, leb, Bool-cases, eq_of-some,
}
use open_lambda.SockPool.{
  Container, Ending, Pool, goes_on, find, modify, drop_child, dec_cg_ref_count, kill, destroy,
  destroy_living, Request, new_container, count_child, with_new, finish, fork, new_process, create,
}
use open_lambda.SockPool.References.{held}
use open_lambda.SockPool.Changes.{find-revise}
use open_lambda.SockPool.Memory.{Ends}

-- A container with more than one reference is not released.
dec_shared :
    (taken : ℕ → Option ℕ) (child : Option ℕ) (id n : ℕ) (c : Container) (cs : List Container)
    → find id cs ≡ some c
    → c.ref_count ≡ suc (suc n)
    → (ds : List Container) × (dec_cg_ref_count taken child id cs ≡ some (ds, 0))
unfolding dec_cg_ref_count
dec_shared taken child id n c [] found e = ground arith
dec_shared taken child id n c (d ∷ ds) found e = elim (Bool-cases (d.id == id)) [
  | inl same ↦
      let is_c : d ≡ c = eq_of-some (rw same at found) in
      let two : d.ref_count ≡ suc (suc n) = ap (λ x. x.ref_count) is_c ∙ e in
      (record (drop_child child d) { ref_count = suc n } ∷ ds, ground (arith, same, two))
  | inr differs ↦
      let (es, below) = dec_shared taken child id n c ds (rw differs at found) e in
      (d ∷ es, ground (arith, differs, below))
]

destroy_shared :
    (e : Ending) (id n : ℕ) (c : Container) (p : Pool)
    → e.freeze_ok ≡ true
    → find id p.containers ≡ some c
    → c.dead ≡ false
    → c.ref_count ≡ suc (suc n)
    → (q : Pool) × (destroy_living e id p ≡ goes_on q) × (q.available ≡ p.available)
unfolding destroy_living destroy
destroy_shared e id n c p freezes found alive two =
    let found' =
      find-revise (λ d. true) (λ d. d.ref_count) (λ d. d.children) id c p.containers found in
    let (ds, dropped) =
      dec_shared e.taken none id n (kill c) (modify id kill p.containers) found' two in
    (
      record p { available = p.available + 0; containers = ds },
      ground (arith, freezes, found, alive, dropped),
      omega arith,
    )

abbrev failed_child : Request → Pool → Container
failed_child r p = record (new_container r p.next_id) {
  dead = true;
  ref_count = 0;
  released = true;
}

-- The pool after a failed fork.
unfoldable after_fork : Request → ℕ → Pool → Pool
after_fork r id p = record p {
  available = p.available - r.mem_limit_mb + (r.mem_limit_mb + 0);
  containers = failed_child r p ∷ modify id (count_child p.next_id) p.containers;
  next_id = suc p.next_id;
}

finish_failed :
    (r : Request) (id : ℕ) (p : Pool)
    → Ends r.ending
    → finish r false p.next_id
        (with_new (new_container r p.next_id) (modify id (count_child p.next_id) p.containers) p)
      ≡ goes_on (after_fork r id p)
unfolding finish destroy dec_cg_ref_count after_fork
finish_failed r id p (freezes, mine) = ground (arith, freezes, mine p.next_id)

-- A fork that fails after the child was counted ends `Create`, destroys the child and gives its memory
-- back, but the parent, which had at least one reference, is left with one more; when it is destroyed
-- next, its memory does not come back. The cgroups are taken to freeze, and none is taken by another
-- sandbox between its release and the reading of its limit.
pub fork_leaks :
    (r : Request) (e : Ending) (id n : ℕ) (p : Pool) (c : Container)
    → r.from ≡ some id
    → find id p.containers ≡ some c
    → id < p.next_id
    → c.dead ≡ false
    → c.ref_count ≡ suc n
    → r.usage + 3 ≤ c.limit
    → p.total_mb ≡ p.available + held p.containers
    → r.mem_limit_mb ≤ p.available
    → r.prepared ≡ true
    → r.proc_ok ≡ false
    → Ends r.ending
    → e.freeze_ok ≡ true
    → (q : Pool) × (create r p ≡ goes_on q)
      × (q.available ≡ p.available)
      × (find id q.containers ≡ some (count_child p.next_id c))
      × (q' : Pool) × (destroy_living e id q ≡ goes_on q')
      × (q'.available ≡ p.available)
unfolding create new_process fork after_fork finish
fork_leaks r e id n p c from found older alive one spare balanced fits ready fails ends freezes =
    let child = p.next_id in
    let q = after_fork r id p in
    let fits_test : leb r.mem_limit_mb p.available ≡ true = ground (arith, fits) in
    let fits_pool : ltb p.total_mb r.mem_limit_mb ≡ false = ground (arith, fits, balanced) in
    let spare_test : ltb c.limit (r.usage + 3) ≡ false = ground (arith, spare) in
    let counted =
      find-revise (λ d. d.dead) (λ d. suc d.ref_count) (λ d. child ∷ d.children) id c p.containers
        found in
    let not_child : (child == id) ≡ false = ground (arith, older) in
    let found_q : find id q.containers ≡ some (count_child child c) =
      ground (arith, counted, not_child) in
    let (q', gone, kept) =
      destroy_shared e id n (count_child child c) q freezes found_q alive (ap suc one) in
    (
      q,
      rw (fits_pool, fits_test, ready, from, found, alive, spare_test, fails)
          (finish_failed r id p ends),
      omega (arith, fits),
      found_q,
      q',
      gone,
      kept ∙ omega (arith, fits),
    )
