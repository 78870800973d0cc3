-- ===== src/SockPool/Creating.antt =====
-- The memory of the pool when a sandbox is created (`Create` of go/worker/sandbox/sockPool.go), with
-- every failure.
use open_lambda.Prelude.{
  ℕ, suc, ◌+◌, ◌≤◌, ◌<◌, ◌≡◌, refl, Bool, true, false, ◌&&◌, List, [], ◌∷◌, ◌++◌, Option, none,
  some, arith, if◌then◌else◌, ltb, leb, All, count,
}
use open_lambda.SockPool.{
  Container, Pool, goes_on, waits, panics, find, modify, count_child, set_parent, destroy, Request,
  new_container, with_new, finish, fork, new_process, create,
}
use open_lambda.SockPool.References.{
  ids, refs_of, ParentIn, Counts, Counted, held, elem-lt, count_new,
}
use open_lambda.SockPool.Changes.{find-elem, find-id, ids-revise, held-revise, Counted-revise}
use open_lambda.SockPool.Memory.{Terms, Allowed, Ends, Balanced, Sound, destroy-Sound, if-Sound}

finish-Sound :
    (t : Terms) (r : Request) (ok : Bool) (c : Container) (cs : List Container) (p : Pool)
    → Ends r.ending
    → c.dead ≡ false
    → Balanced t (with_new c cs p)
    → Sound t (finish r ok c.id (with_new c cs p))
unfolding finish
finish-Sound t r ok c cs p ends alive h =
    if-Sound t ok (goes_on (with_new c cs p)) (destroy r.ending c.id (with_new c cs p)) (λ is_ok. h)
      (λ fails. destroy-Sound t r.ending c.id (with_new c cs p) c ends (ground arith) alive h)

lt_suc : (n : ℕ) (is : List ℕ) → All (λ i. i < n) is → All (λ i. i < suc n) is
lt_suc n [] h = tt
lt_suc n (i ∷ is) (h, hs) = (omega (arith, h), lt_suc n is hs)

abbrev Fresh : Container → Type 0
Fresh c = (c.dead ≡ false) × (c.ref_count ≡ 1) × (c.released ≡ false)

-- A fork from a Zygote succeeds once it counted the child, if no reference may be lost.
abbrev pub Keeps : Bool → Option ℕ → Bool → Type 0
Keeps true (some id) ok = ok ≡ true
Keeps true none ok = Unit
Keeps false from ok = Unit

lost-Allowed :
    (lossless : Bool) (id : ℕ) (ok : Bool) (lost : List ℕ)
    → Keeps lossless (some id) ok
    → ok ≡ false
    → Allowed lossless lost
lost-Allowed true id ok lost keeps fails = let bad : ⊥ = cc in elim bad [ ]
lost-Allowed false id ok lost keeps fails = tt

-- A new container in front of containers that hold what the old ones held and count its reference.
with_new-Balanced :
    (t : Terms) (lost : List ℕ) (c : Container) (cs : List Container) (p : Pool)
    → Balanced t p
    → c.limit ≤ p.available
    → c.id ≡ p.next_id
    → Fresh c
    → held cs ≡ held p.containers
    → ids cs ≡ ids p.containers
    → ParentIn c.parent (ids cs)
    → Counted (refs_of false c.parent ++ lost) cs
    → All (λ i. i < p.next_id) lost
    → Allowed t.lossless lost
    → Balanced t (with_new c cs p)
with_new-Balanced t lost c cs p (mem, size, new, _, _, _, _) fits is_new (alive, one, is_held)
      held_eq ids_eq parent good' old may =
    let unseen : count c.id lost ≡ 0 = rw is_new (count_new p.next_id lost old) in
    (
      ground (arith, mem, fits, is_held, held_eq),
      size,
      (omega (arith, is_new), rw ids_eq (lt_suc p.next_id (ids p.containers) new)),
      lost,
      (
        (ground (arith, alive, one, unseen), ground (arith, one, is_held)),
        rw (is_new, ids_eq) new,
        parent,
        rw is_held good',
      ),
      lt_suc p.next_id lost old,
      may,
    )

-- A container as `Create` makes it, for a pool that has the memory.
abbrev Made : Container → Pool → Type 0
Made c p = (c.parent ≡ none) × (c.id ≡ p.next_id) × (c.limit ≤ p.available) × Fresh c

alone-Balanced :
    (t : Terms) (c : Container) (p : Pool)
    → Balanced t p
    → Made c p
    → Balanced t (with_new c p.containers p)
alone-Balanced t c p h (orphan, is_new, fits, fresh) =
    let (_, _, _, lost, good, old, may) = h in
    with_new-Balanced t lost c p.containers p h fits is_new fresh refl refl (rw orphan tt)
      (rw orphan good) old may

module _ (t : Terms) (child : Container) (id : ℕ) (p : Pool) (c : Container)
    (found : find id p.containers ≡ some c) (alive : c.dead ≡ false) (h : Balanced t p)
    (made : Made child p) where
  abbrev counted : List Container
  counted = modify id (count_child child.id) p.containers

  abbrev fd : Container → Bool
  fd d = d.dead

  abbrev fr : Container → ℕ
  fr d = suc d.ref_count

  abbrev fk : Container → List ℕ
  fk d = child.id ∷ d.children

  count_child-Counts : (rs : List ℕ) → Counts rs c → Counts (id ∷ rs) (count_child child.id c)
  count_child-Counts rs (enough, when) =
      let same = find-id id c p.containers found in
      (ground (arith, same, enough), ground (arith, enough, when, alive))

  counted-Counted : (lost : List ℕ) → Counted lost p.containers → Counted (id ∷ lost) counted
  counted-Counted lost = Counted-revise fd fr fk id c lost p.containers found count_child-Counts

  -- The parent has counted the child, which does not know it.
  failed-Balanced :
      ((lost : List ℕ) → Allowed t.lossless lost) → Balanced t (with_new child counted p)
  failed-Balanced may =
      let (orphan, is_new, fits, fresh) = made in
      let (_, _, new, lost, good, old, _) = h in
      let is_old =
        elem-lt id p.next_id (ids p.containers) (find-elem id c p.containers found) new in
      with_new-Balanced t (id ∷ lost) child counted p h fits is_new fresh
        (held-revise fd fr fk id p.containers) (ids-revise fd fr fk id p.containers) (rw orphan tt)
        (rw orphan (counted-Counted lost good)) (is_old, old) (may (id ∷ lost))

  forked-Balanced : Balanced t (with_new (set_parent id child) counted p)
  forked-Balanced =
      let (orphan, is_new, fits, fresh) = made in
      let (_, _, _, lost, good, old, may) = h in
      with_new-Balanced t lost (set_parent id child) counted p h fits is_new fresh
        (held-revise fd fr fk id p.containers) (ids-revise fd fr fk id p.containers)
        (rw (ids-revise fd fr fk id p.containers) (find-elem id c p.containers found))
        (counted-Counted lost good) old may

fork-Sound :
    (t : Terms) (r : Request) (child : Container) (id : ℕ) (p : Pool) (found : Option Container)
    → find id p.containers ≡ found
    → Ends r.ending
    → Keeps t.lossless (some id) r.proc_ok
    → Balanced t p
    → Made child p
    → Sound t (fork r child id p found)
unfolding fork
fork-Sound t r child id p none e ends keeps h made =
    finish-Sound t r false child p.containers p ends made.3.0 (alone-Balanced t child p h made)
fork-Sound t r child id p (some c) e ends keeps h made =
    let alone =
      finish-Sound t r false child p.containers p ends made.3.0 (alone-Balanced t child p h made) in
    let refusal = finish r false child.id (with_new child p.containers p) in
    let cs = modify id (count_child child.id) p.containers in
    let forked =
      (if r.proc_ok
        then finish r r.path_ok child.id (with_new (set_parent id child) cs p)
        else finish r false child.id (with_new child cs p)) in
    if-Sound t c.dead refusal (if ltb c.limit (r.usage + 3) then refusal else forked)
      (λ dead. alone)
      (λ alive.
        if-Sound t (ltb c.limit (r.usage + 3)) refusal forked (λ full. alone)
          (λ spare.
            if-Sound t r.proc_ok (finish r r.path_ok child.id (with_new (set_parent id child) cs p))
              (finish r false child.id (with_new child cs p))
              (λ forked.
                finish-Sound t r r.path_ok (set_parent id child) cs p ends made.3.0
                  (forked-Balanced t child id p c e alive h made))
              (λ failed. finish-Sound t r false child cs p ends made.3.0 (
                failed-Balanced t child id p c e alive h made
                  (λ lost. lost-Allowed t.lossless id r.proc_ok lost keeps failed)))))

new_process-Sound :
    (t : Terms) (r : Request) (child : Container) (p : Pool) (from : Option ℕ)
    → Ends r.ending
    → Keeps t.lossless from r.proc_ok
    → Balanced t p
    → Made child p
    → Sound t (new_process r child p from)
unfolding new_process
new_process-Sound t r child p none ends keeps h made =
    finish-Sound t r (r.proc_ok && r.path_ok) child p.containers p ends made.3.0
      (alone-Balanced t child p h made)
new_process-Sound t r child p (some id) ends keeps h made =
    fork-Sound t r child id p (find id p.containers) refl ends keeps h made

pub create-Sound :
    (t : Terms) (r : Request) (p : Pool)
    → Ends r.ending
    → Keeps t.lossless r.from r.proc_ok
    → r.mem_limit_mb ≤ t.mb
    → Balanced t p
    → Sound t (create r p)
unfolding create
create-Sound t r p ends keeps usual h =
    let child = new_container r p.next_id in
    let made = finish r false child.id (with_new child p.containers p) in
    let starts = (if r.prepared then new_process r child p r.from else made) in
    if-Sound t (ltb p.total_mb r.mem_limit_mb) panics
      (if leb r.mem_limit_mb p.available then starts else waits)
      (λ too_much. let bad : ⊥ = ground (arith, too_much, usual, h.1) in elim bad [ ])
      (λ fits_pool.
        if-Sound t (leb r.mem_limit_mb p.available) starts waits
          (λ fits.
            let is_made : Made child p = (refl, refl, ground (arith, fits), (refl, refl, refl)) in
            if-Sound t r.prepared (new_process r child p r.from) made
              (λ ready. new_process-Sound t r child p r.from ends keeps h is_made)
              (λ fails.
                finish-Sound t r false child p.containers p ends refl
                  (alone-Balanced t child p h is_made)))
          (λ short. tt))
