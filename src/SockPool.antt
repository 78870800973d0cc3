-- ===== src/SockPool.antt =====
-- go/worker/sandbox/sock.go and sockPool.go: sandboxes that fork from each other, the references to
-- their cgroups, and the memory of the pool. What the kernel answers is an argument. Calls of a
-- sandbox come through its SafeSandbox, whose lock and flag `dead` guard them. Each call is one
-- step. `Create` takes its memory first; what follows up to the fork is known to nobody else, and
-- others that run meanwhile just find less memory, so the memory may be taken right before the
-- fork; sandboxes are numbered in the order of these steps. After a fork nobody else can destroy
-- the child before `Create` returns. In `Destroy` the counts change by atomic additions, and until
-- the memory is given back others only find less of it. What does not commute is that the limit of
-- a released cgroup is read after its release, when it may have a new owner: what is read then is
-- an argument, `taken`. That a cgroup takes the limit that is written and that its processes are
-- killed at its release is taken as given; Cgroups has the panics where not.
pub mod References
pub mod Changes
pub mod Memory
pub mod Creating
pub mod Runs
pub mod Forking
pub mod Pausing
mod Tests
use open_lambda.Prelude.{
  ℕ, zero, suc, ◌+◌, ◌-◌, Bool, true, false, ◌&&◌, List, [], ◌∷◌, map, Option, none, some,
  if◌then◌else◌, ◌==◌, ltb, leb, erase,
}

-- `dead` and `paused` are flags of the SafeSandbox, `limit` is that of the cgroup, and `released` says
-- that the cgroup is given back.
pub record Container : Type 0 where
  pub id : ℕ
  pub parent : Option ℕ
  pub children : List ℕ
  pub dead : Bool
  pub paused : Bool
  pub ref_count : ℕ
  pub limit : ℕ
  pub released : Bool

-- The containers, newest first; a parent is older than its children.
pub record Pool : Type 0 where
  pub total_mb : ℕ
  pub available : ℕ
  pub containers : List Container
  pub next_id : ℕ

pub record Conf : Type 0 where
  pub downsize_paused_mem : Bool
  pub mem_mb : ℕ

-- A call goes on, waits for memory, or panics.
pub data Result : Type 0 where
  goes_on : Pool → Result
  waits panics : Result

-- What a `Destroy` meets: whether the cgroup freezes, and for the containers whose cgroup is taken by
-- another sandbox right when it is released, the limit that this one sets.
pub record Ending : Type 0 where
  pub freeze_ok : Bool
  pub taken : ℕ → Option ℕ

-- The limit that is read from the cgroup after its release.
abbrev pub limit_read : Container → Option ℕ → ℕ
limit_read c none = c.limit
limit_read c (some mb) = mb

abbrev pub find : ℕ → List Container → Option Container
find id [] = none
find id (c ∷ cs) = if c.id == id then some c else find id cs

abbrev pub modify : ℕ → (Container → Container) → List Container → List Container
modify id f [] = []
modify id f (c ∷ cs) = let rest = modify id f cs in if c.id == id then f c ∷ cs else c ∷ rest

-- The containers, and the memory that is given back.
abbrev pub Freed : Type 0
Freed = Option (List Container × ℕ)

abbrev pub behind : Container → ℕ → Freed → Freed
behind c mb none = none
behind c mb (some (cs, freed)) = some (c ∷ cs, mb + freed)

abbrev pub without : Option ℕ → List ℕ → List ℕ
without none ids = ids
without (some id) ids = erase id ids

abbrev pub drop_child : Option ℕ → Container → Container
drop_child child c = record c { children = without child c.children }

-- The reference to a container that was found is dropped, given what it does to its parent.
abbrev pub drop_ref : (ℕ → Option ℕ) → Container → ℕ → List Container → Freed → Freed
drop_ref taken c zero cs up = none
drop_ref taken c (suc zero) cs up =
    behind (record c { ref_count = 0; released = true }) (limit_read c (taken c.id)) up
drop_ref taken c (suc (suc n)) cs up = some (record c { ref_count = suc n } ∷ cs, 0)

abbrev pub exit_to : (ℕ → Freed) → Option ℕ → List Container → Freed
exit_to f none cs = some (cs, 0)
exit_to f (some p) cs = f p

-- `decCgRefCount`, after `childExit` of a child if there is one; then `childExit` of the parent.
-- `none` is the panic on a negative count, or a parent that does not exist.
unfoldable pub dec_cg_ref_count : (ℕ → Option ℕ) → Option ℕ → ℕ → List Container → Freed
dec_cg_ref_count taken child id [] = none
dec_cg_ref_count taken child id (c ∷ cs) = elim (c.id == id) [
  | true ↦
      drop_ref taken (drop_child child c) c.ref_count cs
        (exit_to (λ p. dec_cg_ref_count taken (some c.id) p cs) c.parent cs)
  | false ↦ behind c 0 (dec_cg_ref_count taken child id cs)
]

abbrev pub give_back : Pool → Freed → Result
give_back p none = panics
give_back p (some (cs, mb)) = goes_on (record p { available = p.available + mb; containers = cs })

abbrev pub kill : Container → Container
kill c = record c { dead = true }

-- `Destroy`, which panics if the cgroup cannot be frozen.
unfoldable pub destroy : Ending → ℕ → Pool → Result
destroy e id p =
    if e.freeze_ok
    then give_back p (dec_cg_ref_count e.taken none id (modify id kill p.containers))
    else panics

abbrev pub on_living : Option Container → Pool → (Container → Result) → Result
on_living none p f = goes_on p
on_living (some c) p f = if c.dead then goes_on p else f c

-- `Destroy` through the SafeSandbox.
unfoldable pub destroy_living : Ending → ℕ → Pool → Result
destroy_living e id p = on_living (find id p.containers) p (λ c. destroy e id p)

abbrev pub set_limit : ℕ → Container → Container
set_limit mb c = record c { limit = mb }

-- `Pause` of a cgroup that was frozen, with the memory in use.
unfoldable pub pause : Conf → ℕ → ℕ → Pool → Container → Result
pause conf usage id p c =
    if conf.downsize_paused_mem
    then (if ltb (usage + 1) c.limit
        then goes_on (record p {
          available = p.available + (c.limit - (usage + 1));
          containers = modify id (set_limit (usage + 1)) p.containers;
        })
        else goes_on p)
    else goes_on p

abbrev pub then_do : Result → (Pool → Result) → Result
then_do (goes_on p) f = f p
then_do waits f = waits
then_do panics f = panics

abbrev pub set_paused : Bool → Container → Container
set_paused b c = record c { paused = b }

abbrev pub mark_paused : Bool → ℕ → Pool → Pool
mark_paused b id p = record p { containers = modify id (set_paused b) p.containers }

-- `Pause` through the SafeSandbox, which destroys the sandbox on an error: it is then frozen anew.
unfoldable pub pause_living : Conf → Bool → Ending → ℕ → ℕ → Pool → Result
pause_living conf freeze_ok e usage id p = on_living (find id p.containers) p (λ c.
    if c.paused
    then goes_on p
    else (if freeze_ok
        then then_do (pause conf usage id p c) (λ q. goes_on (mark_paused true id q))
        else destroy e id p))

-- The limit of a container is set to that of the worker, when there is the memory for it. The memory
-- pool panics on a demand for more than it has in all.
unfoldable pub upsize : Conf → ℕ → Pool → Container → Result
upsize conf id p c =
    if conf.downsize_paused_mem
    then (if ltb (p.total_mb + c.limit) conf.mem_mb
        then panics
        else (if leb conf.mem_mb (p.available + c.limit)
            then goes_on (record p {
              available = p.available + c.limit - conf.mem_mb;
              containers = modify id (set_limit conf.mem_mb) p.containers;
            })
            else waits))
    else goes_on p

-- `Unpause` through the SafeSandbox.
unfoldable pub unpause_living : Conf → Bool → Ending → ℕ → Pool → Result
unpause_living conf thaw_ok e id p = on_living (find id p.containers) p (λ c.
    if c.paused
    then then_do (upsize conf id p c)
        (λ q. if thaw_ok then goes_on (mark_paused false id q) else destroy e id q)
    else goes_on p)

-- What `Create` is told and what it finds: the parent, the memory, whether all goes well until the
-- process is made (code directory, file system, runtime), the use of memory of the parent, whether the
-- process is made, whether the path of the socket is short enough, and what a `Destroy` of a failed
-- sandbox meets.
pub record Request : Type 0 where
  pub from : Option ℕ
  pub mem_limit_mb : ℕ
  pub prepared : Bool
  pub usage : ℕ
  pub proc_ok : Bool
  pub path_ok : Bool
  pub ending : Ending

abbrev pub new_container : Request → ℕ → Container
new_container r id = record {
  id = id;
  parent = none;
  children = [];
  dead = false;
  paused = false;
  ref_count = 1;
  limit = r.mem_limit_mb;
  released = false;
}

-- What `fork` writes to the parent before it starts any process. The test for a count of 0 that follows
-- the increment is never true.
abbrev pub count_child : ℕ → Container → Container
count_child child c = record c { ref_count = suc c.ref_count; children = child ∷ c.children }

-- The pool with a new container, which has its memory and a cgroup.
abbrev pub with_new : Container → List Container → Pool → Pool
with_new c cs p = record p {
  available = p.available - c.limit;
  containers = c ∷ cs;
  next_id = suc p.next_id;
}

abbrev pub set_parent : ℕ → Container → Container
set_parent id c = record c { parent = some id }

-- The end of `Create`, with an error that destroys the new container, or without.
unfoldable pub finish : Request → Bool → ℕ → Pool → Result
finish r ok child p = if ok then goes_on p else destroy r.ending child p

-- A new process, forked from the parent. The parent is written to the child once the fork succeeded.
unfoldable pub fork : Request → Container → ℕ → Pool → Option Container → Result
fork r child id p none = finish r false child.id (with_new child p.containers p)
fork r child id p (some c) =
    if c.dead
    then finish r false child.id (with_new child p.containers p)
    else (if ltb c.limit (r.usage + 3)
        then finish r false child.id (with_new child p.containers p)
        else (let counted = modify id (count_child child.id) p.containers in
            if r.proc_ok
            then finish r r.path_ok child.id (with_new (set_parent id child) counted p)
            else finish r false child.id (with_new child counted p)))

unfoldable pub new_process : Request → Container → Pool → Option ℕ → Result
new_process r child p none =
    finish r (r.proc_ok && r.path_ok) child.id (with_new child p.containers p)
new_process r child p (some id) = fork r child id p (find id p.containers)

unfoldable pub create : Request → Pool → Result
create r p =
    if ltb p.total_mb r.mem_limit_mb
    then panics
    else (if leb r.mem_limit_mb p.available
        then (let child = new_container r p.next_id in
            if r.prepared
            then new_process r child p r.from
            else finish r false child.id (with_new child p.containers p))
        else waits)

pub data Call : Type 0 where
  creates : Request → Call
  pauses : Bool → Ending → ℕ → ℕ → Call  -- whether it freezes, the memory in use, the sandbox
  unpauses : Bool → Ending → ℕ → Call  -- whether it thaws
  destroys : Ending → ℕ → Call

unfoldable pub call : Conf → Call → Pool → Result
call conf (creates r) p = create r p
call conf (pauses freeze_ok e usage id) p = pause_living conf freeze_ok e usage id p
call conf (unpauses thaw_ok e id) p = unpause_living conf thaw_ok e id p
call conf (destroys e id) p = destroy_living e id p

unfoldable pub run : Conf → List Call → Pool → Result
run conf [] p = goes_on p
run conf (o ∷ os) p = then_do (call conf o p) (run conf os)

unfoldable pub new_sock_pool : ℕ → Pool
new_sock_pool mb = record { total_mb = mb; available = mb; containers = []; next_id = 1 }
