-- ===== src/SockPool/Runs.antt =====
-- Runs of calls from a new pool: no panic, no memory lost, and parents outlive their children.
use open_lambda.Prelude.{
  ℕ, ◌+◌, ◌<◌, ◌≤◌, ◌≡◌, ◌∙◌, ap, subst, refl, ◌&&◌, Bool, true, false, inl, inr, List, [], ◌∷◌,
  ◌++◌, Option, none, some, arith, if◌then◌else◌, ◌==◌, count, All, All-map, count-append,
  Bool-cases,
}
use open_lambda.SockPool.{
  Container, Pool, Conf, Result, goes_on, waits, panics, find, mark_paused, destroy, destroy_living,
  pause, pause_living, upsize, then_do, unpause_living, Call, creates, pauses, unpauses, destroys,
  call, run, new_sock_pool,
}
use open_lambda.SockPool.References.{elem-lt, ids, refs_of, ParentIn, Counts, Counted}
use open_lambda.SockPool.Creating.{Keeps, create-Sound}
use open_lambda.SockPool.Memory.{
  Terms, Allowed, Ends, Balanced, Sound, destroy-Sound, on_living-Sound, pause-Sound, upsize-Sound,
  upsize-Lives, thaw-Sound, if-Sound, mark_paused-Balanced,
}

-- What a call is taken to meet: where a sandbox is destroyed, its cgroup freezes and no cgroup is taken
-- before its limit is read, and no demand is larger than the pool.
abbrev pub Fine : Terms → Call → Type 0
Fine t (creates r) = Ends r.ending × (r.mem_limit_mb ≤ t.mb) × Keeps t.lossless r.from r.proc_ok
Fine t (pauses freeze_ok e usage id) = Ends e
Fine t (unpauses thaw_ok e id) = Ends e
Fine t (destroys e id) = Ends e

none_lost : (lossless : Bool) → Allowed lossless []
none_lost true = refl
none_lost false = tt

then_do-Sound :
    (t : Terms) (r : Result) (f : Pool → Result)
    → Sound t r
    → ((p : Pool) → Balanced t p → Sound t (f p))
    → Sound t (then_do r f)
then_do-Sound t (goes_on p) f h k = k p h
then_do-Sound t waits f h k = h
then_do-Sound t panics f h k = h

call-Sound :
    (conf : Conf) (t : Terms) (o : Call) (p : Pool)
    → conf.mem_mb ≤ t.mb
    → Fine t o
    → Balanced t p
    → Sound t (call conf o p)
unfolding call pause_living unpause_living destroy_living
call-Sound conf t (creates r) p usual (ends, fits, keeps) h = create-Sound t r p ends keeps fits h
call-Sound conf t (pauses freeze_ok e usage id) p usual ends h =
    let paused =
      λ (c : Container). then_do (pause conf usage id p c) (λ q. goes_on (mark_paused true id q)) in
    on_living-Sound t (find id p.containers) p
      (λ c. if c.paused then goes_on p else (if freeze_ok then paused c else destroy e id p)) h
      (λ c found alive.
        if-Sound t c.paused (goes_on p) (if freeze_ok then paused c else destroy e id p)
          (λ already. h)
          (λ awake.
            if-Sound t freeze_ok (paused c) (destroy e id p)
              (λ freezes.
                then_do-Sound t (pause conf usage id p c) (λ q. goes_on (mark_paused true id q))
                  (pause-Sound conf t usage id p c found alive h) (mark_paused-Balanced t true id))
              (λ fails. destroy-Sound t e id p c ends found alive h)))
call-Sound conf t (unpauses thaw_ok e id) p usual ends h =
    let thawed = λ (c : Container).
      then_do (upsize conf id p c)
        (λ q. if thaw_ok then goes_on (mark_paused false id q) else destroy e id q) in
    on_living-Sound t (find id p.containers) p (λ c. if c.paused then thawed c else goes_on p) h
      (λ c found alive.
        if-Sound t c.paused (thawed c) (goes_on p)
          (λ paused.
            thaw-Sound t thaw_ok e id (upsize conf id p c) ends
              (upsize-Sound conf t id p c found alive usual h)
              (upsize-Lives conf id p c found alive))
          (λ awake. h))
call-Sound conf t (destroys e id) p usual ends h =
    on_living-Sound t (find id p.containers) p (λ c. destroy e id p) h
      (λ c found alive. destroy-Sound t e id p c ends found alive h)

run-Sound :
    (conf : Conf) (t : Terms) (os : List Call) (p : Pool)
    → conf.mem_mb ≤ t.mb
    → All (Fine t) os
    → Balanced t p
    → Sound t (run conf os p)
unfolding run
run-Sound conf t [] p usual fine h = h
run-Sound conf t (o ∷ os) p usual (f, fs) h =
    then_do-Sound t (call conf o p) (run conf os) (call-Sound conf t o p usual f h)
      (λ q. run-Sound conf t os q usual fs)

pub run_balanced :
    (conf : Conf) (t : Terms) (os : List Call)
    → conf.mem_mb ≤ t.mb
    → All (Fine t) os
    → Sound t (run conf os (new_sock_pool t.mb))
unfolding new_sock_pool
run_balanced conf t os usual fine =
    run-Sound conf t os (new_sock_pool t.mb) usual fine
      (omega arith, refl, tt, [], tt, tt, none_lost t.lossless)

-- The children of a container that are not released.
abbrev pub holding_children : ℕ → List Container → ℕ
holding_children id [] = 0
holding_children id (c ∷ cs) =
    let rest = holding_children id cs in count id (refs_of c.released c.parent) + rest

-- A container gave its memory back exactly if it is dead and none of its children holds memory.
abbrev pub Released : List Container → Container → Type 0
Released all c = c.released ≡ (c.dead && (holding_children c.id all == 0))

refs_of-older :
    (released : Bool) (parent : Option ℕ) (n : ℕ) (is : List ℕ)
    → ParentIn parent is
    → All (λ i. i < n) is
    → count n (refs_of released parent) ≡ 0
refs_of-older true parent n is here below = refl
refs_of-older false none n is here below = refl
refs_of-older false (some p) n is here below =
    let less = elem-lt p n is here below in ground (arith, less)

-- Older containers are no children of a newer one.
holding_children-older :
    (n : ℕ) (refs : List ℕ) (cs : List Container)
    → Counted refs cs
    → All (λ i. i < n) (ids cs)
    → holding_children n cs ≡ 0
holding_children-older n refs [] g below = refl
holding_children-older n refs (c ∷ cs) (_, _, parent, rest) (b, bs) =
    let os = refs_of c.released c.parent in
    omega (
      arith,
      refs_of-older c.released c.parent n (ids cs) parent bs,
      holding_children-older n (os ++ refs) cs rest bs,
    )

abbrev ReleasedWith : List ℕ → List Container → Container → Type 0
ReleasedWith refs all c =
    c.released ≡ (c.dead && (count c.id refs + holding_children c.id all == 0))

Counts-ReleasedWith :
    (refs : List ℕ) (c : Container) (cs : List Container)
    → Counts refs c
    → holding_children c.id cs ≡ 0
    → count c.id (refs_of c.released c.parent) ≡ 0
    → ReleasedWith refs (c ∷ cs) c
Counts-ReleasedWith refs c cs (counts, when) older self = when ∙ elim (Bool-cases c.dead) [
  | inl dead ↦ ground (arith, dead, counts, older, self)
  | inr alive ↦ ground (arith, alive, counts)
]

Counted-ReleasedWith :
    (refs : List ℕ) (cs : List Container) → Counted refs cs → All (ReleasedWith refs cs) cs
Counted-ReleasedWith refs [] g = tt
Counted-ReleasedWith refs (c ∷ cs) (counts, below, parent, rest) =
    let os = refs_of c.released c.parent in
    (
      Counts-ReleasedWith refs c cs counts (holding_children-older c.id (os ++ refs) cs rest below)
          (refs_of-older c.released c.parent c.id (ids cs) parent below),
      All-map (ReleasedWith (os ++ refs) cs) (ReleasedWith refs (c ∷ cs)) cs
          (λ d h.
            let same : count d.id (os ++ refs) + holding_children d.id cs
                ≡ count d.id refs + (count d.id os + holding_children d.id cs) =
              omega (arith, count-append d.id os refs) in
            h ∙ ap (λ n. d.dead && (n == 0)) same)
          (Counted-ReleasedWith (os ++ refs) cs rest),
    )

abbrev pub lossless : ℕ → Terms
lossless mb = record { mb = mb; lossless = true }

-- After any calls on a new pool, if no call asks for more memory than the pool has in all, the limit of
-- the worker is not larger, every cgroup that is to be destroyed freezes, no cgroup is taken by another
-- sandbox between its release and the reading of its limit, and each fork succeeds once it counted the
-- child, the memory of a container was given back exactly if it is dead and none of its children holds
-- memory.
pub run-Released :
    (conf : Conf) (total : ℕ) (os : List Call) (p : Pool)
    → conf.mem_mb ≤ total
    → All (Fine (lossless total)) os
    → run conf os (new_sock_pool total) ≡ goes_on p
    → All (Released p.containers) p.containers
run-Released conf total os p usual fine e =
    let sound = run_balanced conf (lossless total) os usual fine in
    let (_, _, _, lost, good, _, no_lost) : Balanced (lossless total) p = rw e at sound in
    All-map (ReleasedWith [] p.containers) (Released p.containers) p.containers
      (λ c h.
        let plain : 0 + holding_children c.id p.containers ≡ holding_children c.id p.containers =
          omega arith in
        h ∙ ap (λ n. c.dead && (n == 0)) plain)
      (Counted-ReleasedWith [] p.containers
        (subst (λ (refs : List ℕ). Counted refs p.containers) no_lost good))
