-- ===== src/SockPool/Memory.antt =====
-- The memory of the pool under every call: what is available, and what the containers hold.
use open_lambda.Prelude.{
  ℕ, ◌+◌, ◌≤◌, ◌<◌, ◌≡◌, refl, Bool, true, false, inl, inr, List, [], ◌∷◌, Option, none, some,
  arith, if◌then◌else◌, ltb, leb, All, Bool-cases,
}
use open_lambda.SockPool.{
  Container, Ending, Pool, Conf, Result, goes_on, waits, panics, Freed, find, modify, kill,
  set_limit, mark_paused, dec_cg_ref_count, give_back, destroy, on_living, pause, upsize, then_do,
}
use open_lambda.SockPool.References.{ids, Counts, Counted, held, Untaken, Drops, dec-Drops}
use open_lambda.SockPool.Changes.{
  find-elem, find-id, find-released, ids-revise, held-revise, Counted-revise, ids-set_limit,
  Counted-set_limit, held-set_limit, find-set_limit, held-set_paused, ids-adjust, Counted-adjust,
}

-- The size of a pool, and whether every fork succeeds once it has counted the child.
pub record Terms : Type 0 where
  pub mb : ℕ
  pub lossless : Bool

abbrev pub Allowed : Bool → List ℕ → Type 0
Allowed true lost = lost ≡ []
Allowed false lost = Unit

-- Nothing is lost: memory is available or held, each container counts the references to it and those
-- that were lost in failed forks, if there may be any, and the identifiers to come are new.
abbrev pub Balanced : Terms → Pool → Type 0
Balanced t p =
    (p.available + held p.containers ≡ t.mb)
    × (p.total_mb ≡ t.mb)
    × All (λ i. i < p.next_id) (ids p.containers)
    × (lost : List ℕ) × Counted lost p.containers
    × All (λ i. i < p.next_id) lost
    × Allowed t.lossless lost

-- What a `Destroy` must meet: the cgroup freezes, and no cgroup is taken before its limit is read.
abbrev pub Ends : Ending → Type 0
Ends e = (e.freeze_ok ≡ true) × Untaken e.taken

abbrev pub Sound : Terms → Result → Type 0
Sound t (goes_on p) = Balanced t p
Sound t waits = Unit
Sound t panics = ⊥

give_back-Sound :
    (t : Terms) (p : Pool) (cs : List Container) (freed : Freed)
    → p.available + held cs ≡ t.mb
    → All (λ i. i < p.next_id) (ids cs)
    → (p.total_mb ≡ t.mb)
    → (lost : List ℕ) → Drops lost cs freed
    → All (λ i. i < p.next_id) lost
    → Allowed t.lossless lost
    → Sound t (give_back p freed)
give_back-Sound t p cs none mem new size lost bad old may = bad
give_back-Sound t p cs (some (cs', mb)) mem new size lost (good, ids_eq, held_eq) old may =
    (omega (arith, mem, held_eq), size, rw ids_eq new, lost, good, old, may)

kill-Counts :
    (id : ℕ) (c : Container) (rs : List ℕ)
    → c.id ≡ id
    → c.dead ≡ false
    → Counts rs c
    → Counts (id ∷ rs) (kill c)
kill-Counts id c rs same alive (enough, when) = (ground (arith, same, alive, enough), when)

pub destroy-Sound :
    (t : Terms) (e : Ending) (id : ℕ) (p : Pool) (c : Container)
    → Ends e
    → find id p.containers ≡ some c
    → c.dead ≡ false
    → Balanced t p
    → Sound t (destroy e id p)
unfolding destroy
destroy-Sound t e id p c (freezes, mine) found alive (mem, size, new, lost, good, old, may) =
    let fd : Container → Bool = λ c. true in
    let fr : Container → ℕ = λ c. c.ref_count in
    let fk : Container → List ℕ = λ c. c.children in
    let cs = modify id kill p.containers in
    let same_ids = ids-revise fd fr fk id p.containers in
    rw freezes (
      give_back-Sound t p cs (dec_cg_ref_count e.taken none id cs)
        (rw (held-revise fd fr fk id p.containers) mem) (rw same_ids new) size lost
        (dec-Drops e.taken none id lost cs mine
          (Counted-revise fd fr fk id c lost p.containers found
            (λ rs. kill-Counts id c rs (find-id id c p.containers found) alive) good)
          (rw same_ids (find-elem id c p.containers found)))
        old may)

pub if-Sound :
    (t : Terms) (b : Bool) (r q : Result)
    → (b ≡ true → Sound t r)
    → (b ≡ false → Sound t q)
    → Sound t (if b then r else q)
if-Sound t true r q f g = f refl
if-Sound t false r q f g = g refl

pub on_living-Sound :
    (t : Terms) (found : Option Container) (p : Pool) (f : Container → Result)
    → Balanced t p
    → ((c : Container) → found ≡ some c → c.dead ≡ false → Sound t (f c))
    → Sound t (on_living found p f)
on_living-Sound t none p f h k = h
on_living-Sound t (some c) p f h k = if-Sound t c.dead (goes_on p) (f c) (λ dead. h) (k c refl)

pub pause-Sound :
    (conf : Conf) (t : Terms) (usage id : ℕ) (p : Pool) (c : Container)
    → find id p.containers ≡ some c
    → c.dead ≡ false
    → Balanced t p
    → Sound t (pause conf usage id p c)
unfolding pause
pause-Sound conf t usage id p c found alive (mem, size, new, lost, good, old, may) =
    elim (Bool-cases conf.downsize_paused_mem) [
      | inr keeps ↦ rw keeps (mem, size, new, lost, good, old, may)
      | inl downsizes ↦ elim (Bool-cases (ltb (usage + 1) c.limit)) [
        | inr tight ↦ rw (downsizes, tight) (mem, size, new, lost, good, old, may)
        | inl spare ↦
            let is_held = find-released id c lost p.containers found good alive in
            let moved = held-set_limit id (usage + 1) c p.containers found is_held in
            let less : usage + 1 < c.limit = ground (arith, spare) in
            rw (downsizes, spare)
              (
                omega (arith, mem, moved, less),
                size,
                rw (ids-set_limit id (usage + 1) p.containers) new,
                lost,
                Counted-set_limit id (usage + 1) lost p.containers good,
                old,
                may,
              )
      ]
    ]

pub upsize-Sound :
    (conf : Conf) (t : Terms) (id : ℕ) (p : Pool) (c : Container)
    → find id p.containers ≡ some c
    → c.dead ≡ false
    → conf.mem_mb ≤ t.mb
    → Balanced t p
    → Sound t (upsize conf id p c)
unfolding upsize
upsize-Sound conf t id p c found alive usual (mem, size, new, lost, good, old, may) =
    let fits_pool : ltb (p.total_mb + c.limit) conf.mem_mb ≡ false = ground (arith, usual, size) in
    elim (Bool-cases conf.downsize_paused_mem) [
      | inr keeps ↦ rw keeps (mem, size, new, lost, good, old, may)
      | inl downsizes ↦ elim (Bool-cases (leb conf.mem_mb (p.available + c.limit))) [
        | inr short ↦ rw (downsizes, fits_pool, short) tt
        | inl enough ↦
            let is_held = find-released id c lost p.containers found good alive in
            let moved = held-set_limit id conf.mem_mb c p.containers found is_held in
            let fits : conf.mem_mb ≤ p.available + c.limit = ground (arith, enough) in
            rw (downsizes, fits_pool, enough)
              (
                omega (arith, mem, moved, fits),
                size,
                rw (ids-set_limit id conf.mem_mb p.containers) new,
                lost,
                Counted-set_limit id conf.mem_mb lost p.containers good,
                old,
                may,
              )
      ]
    ]

-- A result after which a container lives.
abbrev Lives : ℕ → Result → Type 0
Lives id (goes_on p) = (c : Container) × (find id p.containers ≡ some c) × (c.dead ≡ false)
Lives id waits = Unit
Lives id panics = Unit

pub upsize-Lives :
    (conf : Conf) (id : ℕ) (p : Pool) (c : Container)
    → find id p.containers ≡ some c
    → c.dead ≡ false
    → Lives id (upsize conf id p c)
unfolding upsize
upsize-Lives conf id p c found alive = elim (Bool-cases conf.downsize_paused_mem) [
  | inr keeps ↦ rw keeps (c, found, alive)
  | inl downsizes ↦ elim (Bool-cases (ltb (p.total_mb + c.limit) conf.mem_mb)) [
    | inl too_much ↦ rw (downsizes, too_much) tt
    | inr fits ↦ elim (Bool-cases (leb conf.mem_mb (p.available + c.limit))) [
      | inr short ↦ rw (downsizes, fits, short) tt
      | inl enough ↦
          rw (downsizes, fits, enough)
            (set_limit conf.mem_mb c, find-set_limit id conf.mem_mb c p.containers found, alive)
    ]
  ]
]

pub mark_paused-Balanced :
    (t : Terms) (b : Bool) (id : ℕ) (p : Pool) → Balanced t p → Balanced t (mark_paused b id p)
mark_paused-Balanced t b id p (mem, size, new, lost, good, old, may) = (
  rw (held-set_paused id b p.containers) mem,
  size,
  rw (ids-adjust (λ c. c.limit) (λ c. b) id p.containers) new,
  lost,
  Counted-adjust (λ c. c.limit) (λ c. b) id lost p.containers good,
  old,
  may,
)

pub thaw-Sound :
    (t : Terms) (thaw_ok : Bool) (e : Ending) (id : ℕ) (r : Result)
    → Ends e
    → Sound t r
    → Lives id r
    → Sound t
        (then_do r (λ q. if thaw_ok then goes_on (mark_paused false id q) else destroy e id q))
thaw-Sound t thaw_ok e id (goes_on p) ends h (c, found, alive) =
    if-Sound t thaw_ok (goes_on (mark_paused false id p)) (destroy e id p)
      (λ thawed. mark_paused-Balanced t false id p h)
      (λ stuck. destroy-Sound t e id p c ends found alive h)
thaw-Sound t thaw_ok e id waits ends h lives = h
thaw-Sound t thaw_ok e id panics ends h lives = h
