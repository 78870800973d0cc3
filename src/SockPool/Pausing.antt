-- ===== src/SockPool/Pausing.antt =====
-- A pause gives memory back to the pool, and the end of the pause takes it again.
use open_lambda.Prelude.{
  ℕ, ◌+◌, ◌-◌, ◌≤◌, ◌<◌, ◌≡◌, refl, sym, ◌∙◌, ap, true, false, inl, inr, List, [], ◌∷◌, some, arith,
  ◌==◌, ltb, leb, Bool-cases, eq_of-some,
}
use open_lambda.SockPool.{
  Container, Ending, Pool, Conf, goes_on, find, modify, set_limit, set_paused, pause, pause_living,
  upsize, unpause_living,
}
use open_lambda.SockPool.Changes.{find-set_limit, find-adjust}

-- What a pause and the end of it make of the containers.
modify_back :
    (id a : ℕ) (c : Container) (cs : List Container)
    → find id cs ≡ some c
    → c.paused ≡ false
    → modify id
        (set_paused false)
        (modify id (set_limit c.limit) (modify id (set_paused true) (modify id (set_limit a) cs)))
      ≡ cs
modify_back id a c [] e awake = refl
modify_back id a c (d ∷ ds) e awake = elim (Bool-cases (d.id == id)) [
  | inl same ↦
      let is_c : d ≡ c = eq_of-some (rw same at e) in
      let limit : c.limit ≡ d.limit = sym (ap (λ x. x.limit) is_c) in
      let awake_d : false ≡ d.paused = sym (ap (λ x. x.paused) is_c ∙ awake) in
      let back : record d { limit = c.limit; paused = false } ≡ d =
        ap (λ l. record d { limit = l; paused = false }) limit
        ∙ ap (λ b. record d { paused = b }) awake_d in
      rw (same, same, same, same) (ap (λ x. x ∷ ds) back)
  | inr differs ↦
      rw (differs, differs, differs, differs)
        (ap (λ l. d ∷ l) (modify_back id a c ds (rw differs at e) awake))
]

-- The pool while a sandbox is paused, and after that.
abbrev pub paused_pool : ℕ → ℕ → Pool → Container → Pool
paused_pool usage id p c = record p {
  available = p.available + (c.limit - (usage + 1));
  containers = modify id (set_paused true) (modify id (set_limit (usage + 1)) p.containers);
}

abbrev pub unpaused_pool : Conf → ℕ → Pool → Container → Pool
unpaused_pool conf id p c = record p {
  available = p.available + c.limit - conf.mem_mb;
  containers = modify id (set_paused false) (modify id (set_limit conf.mem_mb) p.containers);
}

pause_living_lem :
    (conf : Conf) (e : Ending) (usage id : ℕ) (p : Pool) (c : Container)
    → find id p.containers ≡ some c
    → (c.dead ≡ false) × (c.paused ≡ false)
    → conf.downsize_paused_mem ≡ true
    → usage + 1 < c.limit
    → pause_living conf true e usage id p ≡ goes_on (paused_pool usage id p c)
unfolding pause_living pause
pause_living_lem conf e usage id p c found (alive, awake) downsizes spare =
    let test : ltb (usage + 1) c.limit ≡ true = ground (arith, spare) in
    ground (arith, found, alive, awake, downsizes, test)

unpause_living_lem :
    (conf : Conf) (e : Ending) (id : ℕ) (p : Pool) (c : Container)
    → find id p.containers ≡ some c
    → (c.dead ≡ false) × (c.paused ≡ true)
    → conf.downsize_paused_mem ≡ true
    → conf.mem_mb ≤ p.total_mb
    → conf.mem_mb ≤ p.available + c.limit
    → unpause_living conf true e id p ≡ goes_on (unpaused_pool conf id p c)
unfolding unpause_living upsize
unpause_living_lem conf e id p c found (alive, paused) downsizes usual fits =
    let fits_pool : ltb (p.total_mb + c.limit) conf.mem_mb ≡ false = ground (arith, usual) in
    let test : leb conf.mem_mb (p.available + c.limit) ≡ true = ground (arith, fits) in
    ground (arith, found, alive, paused, downsizes, fits_pool, test)

-- The sandbox as it is while it is paused.
find_paused :
    (usage id : ℕ) (p : Pool) (c : Container)
    → find id p.containers ≡ some c
    → find id (paused_pool usage id p c).containers
      ≡ some (set_paused true (set_limit (usage + 1) c))
find_paused usage id p c found =
    find-adjust (λ d. d.limit) (λ d. true) id (set_limit (usage + 1) c)
      (modify id (set_limit (usage + 1)) p.containers)
      (find-set_limit id (usage + 1) c p.containers found)

-- Where downsize_paused_mem is on, the memory pool is at least as large as the limit of the worker,
-- and the cgroup freezes and thaws: a living sandbox that is not paused, whose limit is that of the
-- worker and above its use of memory by more than 1 MB, is back as it was, and so is the pool,
-- after a pause and the end of it. In between, the pool has back all of its limit but what it uses
-- and 1 MB.
pub unpause-pause :
    (conf : Conf) (e : Ending) (usage id : ℕ) (p : Pool) (c : Container)
    → find id p.containers ≡ some c
    → (c.dead ≡ false) × (c.paused ≡ false)
    → conf.downsize_paused_mem ≡ true
    → conf.mem_mb ≤ p.total_mb
    → usage + 1 < c.limit
    → c.limit ≡ conf.mem_mb
    → (q : Pool) × (pause_living conf true e usage id p ≡ goes_on q)
      × (q.available + usage + 1 ≡ p.available + c.limit)
      × (unpause_living conf true e id q ≡ goes_on p)
unpause-pause conf e usage id p c found (alive, awake) downsizes size spare usual =
    let q = paused_pool usage id p c in
    let back =
      unpause_living_lem conf e id q (set_paused true (set_limit (usage + 1) c))
        (find_paused usage id p c found) (alive, refl) downsizes size
        (omega (arith, spare, usual)) in
    let memory : q.available + (usage + 1) - conf.mem_mb ≡ p.available =
      omega (arith, spare, usual) in
    let same : modify id (set_paused false) (modify id (set_limit conf.mem_mb) q.containers)
        ≡ p.containers =
      rw (sym usual) (modify_back id (usage + 1) c p.containers found awake) in
    (
      q,
      pause_living_lem conf e usage id p c found (alive, awake) downsizes spare,
      omega (arith, spare),
      back
          ∙ ap
              (λ a.
                goes_on
                  (record (unpaused_pool conf id q (set_limit (usage + 1) c)) { available = a }))
              memory
          ∙ ap (λ cs. goes_on (record p { containers = cs })) same,
    )

-- Where downsize_paused_mem is on, the memory pool is at least as large as the limit of the worker,
-- and the cgroup freezes and thaws: the limit of a living sandbox that is not paused, above its use
-- of memory by more than 1 MB, is that of the worker after a pause and the end of it, whatever it
-- was before, if the memory for it is there.
pub unpause_forgets :
    (conf : Conf) (e : Ending) (usage id : ℕ) (p : Pool) (c : Container)
    → find id p.containers ≡ some c
    → (c.dead ≡ false) × (c.paused ≡ false)
    → conf.downsize_paused_mem ≡ true
    → conf.mem_mb ≤ p.total_mb
    → usage + 1 < c.limit
    → conf.mem_mb ≤ p.available + c.limit
    → (q : Pool) × (p' : Pool) × (pause_living conf true e usage id p ≡ goes_on q)
      × (unpause_living conf true e id q ≡ goes_on p')
      × (find id p'.containers ≡ some (set_paused false (set_limit conf.mem_mb c)))
unpause_forgets conf e usage id p c found (alive, awake) downsizes size spare fits =
    let q = paused_pool usage id p c in
    let asleep = set_paused true (set_limit (usage + 1) c) in
    let found_q = find_paused usage id p c found in
    (
      q,
      unpaused_pool conf id q asleep,
      pause_living_lem conf e usage id p c found (alive, awake) downsizes spare,
      unpause_living_lem conf e id q asleep found_q (alive, refl) downsizes size
          (omega (arith, spare, fits)),
      find-adjust (λ d. d.limit) (λ d. false) id (set_limit conf.mem_mb asleep)
          (modify id (set_limit conf.mem_mb) q.containers)
          (find-set_limit id conf.mem_mb asleep q.containers found_q),
    )
