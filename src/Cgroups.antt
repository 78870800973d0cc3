-- ===== src/Cgroups.antt =====
-- go/worker/sandbox/cgroups/pool.go and cgroup.go: the pool of control groups. `Conf` has the settings
-- that the pool reads, and what the kernel makes of a memory limit that is written. A number stands for
-- the group `cg-%d`. An event is one step of `cgTask` or one call by a sandbox, with what the kernel
-- answers: whether a thaw succeeds, whether the try with `i` tries left removes a directory, whether
-- the processes are killed in time. That a directory is made and a number written is taken as given.
mod Files
mod Steps
mod Places
mod Reading
mod Fits
mod Limits
mod Shutdown
mod Tests
use open_lambda.Prelude.{
  ℕ, zero, suc, ◌+◌, ◌-◌, ◌*◌, ◌/◌, Bool, true, false, List, [], ◌∷◌, ◌++◌, Option, none, some,
  ◌||◌, if◌then◌else◌, ◌==◌, ltb, length, elem, erase,
}
use open_lambda.Prelude.Maps.{update}

pub record Conf : Type 0 where
  pub reuse_cgroups : Bool
  pub procs : ℕ
  pub swappiness : ℕ
  pub rounds : ℕ → ℕ

-- A group: the field of the object, and the files of the kernel. `memory.max` is `none` where no limit
-- was ever written.
pub record Group : Type 0 where
  pub mem_limit_mb : ℕ
  pub memory_max : Option ℕ
  pub cpu_quota : ℕ
  pub pids_max : ℕ
  pub swap_max : ℕ
  pub frozen : Bool

-- Where `cgTask` stands: before its first `select`, before its second with a group in hand, in the loop
-- that empties the queues, or behind it.
pub data Phase : Type 0 where
  fetching : Phase
  offering : ℕ → Phase
  draining : Phase
  stopped : Phase

pub record CgroupPool : Type 0 where
  pub ready : List ℕ
  pub recycled : List ℕ
  pub next_id : ℕ
  pub phase : Phase
  pub groups : ℕ → Group
  pub used : List ℕ
  pub removed : List ℕ

pub data Outcome : Type 0 where
  next : CgroupPool → Outcome
  waits : Outcome
  panics : Outcome

abbrev pub cgroup_reserve : ℕ
cgroup_reserve = 16

abbrev pub no_group : Group
no_group = record {
  mem_limit_mb = 0;
  memory_max = none;
  cpu_quota = 0;
  pids_max = 0;
  swap_max = 0;
  frozen = false;
}

abbrev pub new_cgroup_pool : CgroupPool
new_cgroup_pool = record {
  ready = [];
  recycled = [];
  next_id = 0;
  phase = fetching;
  groups = λ (cg : ℕ). no_group;
  used = [];
  removed = [];
}

-- The loop of `Destroy`; `false` is its panic.
abbrev pub destroy : (ℕ → Bool) → ℕ → Bool
destroy removes zero = removes 0
destroy removes (suc i) = let more = destroy removes i in if removes (suc i) then true else more

-- A group is removed, and the pool goes on as `p`.
abbrev pub after_destroy : Bool → ℕ → CgroupPool → Outcome
after_destroy false cg p = panics
after_destroy true cg p = next (record p { removed = cg ∷ p.removed })

-- `NewCgroup` with the two limits that `cgTask` writes.
abbrev pub new_cgroup : Conf → CgroupPool → CgroupPool
new_cgroup c p = record p {
  next_id = suc p.next_id;
  phase = offering (suc p.next_id);
  groups =
      update p.groups (suc p.next_id)
        (record no_group { pids_max = c.procs; swap_max = c.swappiness });
}

abbrev pub thaw : Bool → Group → Group
thaw false g = g
thaw true g = record g { frozen = false }

-- The first `select` of `cgTask`; the error of `Unpause` is ignored.
abbrev pub fetch : Conf → Bool → List ℕ → CgroupPool → CgroupPool
fetch c thaws [] p = new_cgroup c p
fetch c thaws (cg ∷ cgs) p = record p {
  recycled = cgs;
  phase = offering cg;
  groups = update p.groups cg (thaw thaws (p.groups cg));
}

unfoldable pub cg_task_fetch : Conf → Bool → Phase → CgroupPool → Outcome
cg_task_fetch c thaws fetching p = next (fetch c thaws p.recycled p)
cg_task_fetch c thaws (offering cg) p = waits
cg_task_fetch c thaws draining p = waits
cg_task_fetch c thaws stopped p = waits

-- The second `select`: the group goes to the queue, if that has room, or the task is told to quit.
unfoldable pub cg_task_offer : Phase → CgroupPool → Outcome
cg_task_offer fetching p = waits
cg_task_offer (offering cg) p =
    if ltb (length p.ready) cgroup_reserve
    then next (record p { ready = p.ready ++ cg ∷ []; phase = fetching })
    else waits
cg_task_offer draining p = waits
cg_task_offer stopped p = waits

unfoldable pub cg_task_quit : (ℕ → Bool) → Phase → CgroupPool → Outcome
cg_task_quit removes fetching p = waits
cg_task_quit removes (offering cg) p =
    after_destroy (destroy removes 100) cg (record p { phase = draining })
cg_task_quit removes draining p = waits
cg_task_quit removes stopped p = waits

-- One round of the loop that empties the queues. Where both have a group, either is taken; the first
-- argument is whether it is that of `ready`.
abbrev pub drain : Bool → (ℕ → Bool) → List ℕ → List ℕ → CgroupPool → Outcome
drain from_ready removes [] [] p = next (record p { phase = stopped })
drain from_ready removes (cg ∷ cgs) [] p =
    after_destroy (destroy removes 100) cg (record p { ready = cgs })
drain from_ready removes [] (cg ∷ cgs) p =
    after_destroy (destroy removes 100) cg (record p { recycled = cgs })
drain true removes (cg ∷ cgs) (kg ∷ kgs) p =
    after_destroy (destroy removes 100) cg (record p { ready = cgs })
drain false removes (cg ∷ cgs) (kg ∷ kgs) p =
    after_destroy (destroy removes 100) kg (record p { recycled = kgs })

unfoldable pub cg_task_drain : Bool → (ℕ → Bool) → Phase → CgroupPool → Outcome
cg_task_drain from_ready removes fetching p = waits
cg_task_drain from_ready removes (offering cg) p = waits
cg_task_drain from_ready removes draining p = drain from_ready removes p.ready p.recycled p
cg_task_drain from_ready removes stopped p = waits

abbrev pub mib : ℕ
mib = 1024 * 1024

-- Whether the limit that is read back lies within the tolerance.
abbrev pub tolerated : ℕ → ℕ → Bool
tolerated limit bytes =
    if ltb (limit + mib) bytes then false else if ltb (bytes + mib) limit then false else true

-- `none` is the panic. The product is below 2 ^ 63 for a limit below 2 ^ 43 MB.
unfoldable pub set_mem_limit_mb : Conf → ℕ → Group → Option Group
set_mem_limit_mb c mb g =
    if mb == g.mem_limit_mb
    then some g
    else if tolerated (c.rounds (mb * mib)) (mb * mib)
    then some (record g { mem_limit_mb = mb; memory_max = some (c.rounds (mb * mib)) })
    else none

abbrev pub set_cpu_percent : ℕ → Group → Group
set_cpu_percent percent g = record g { cpu_quota = 100000 * percent / 100 }

abbrev pub resized : ℕ → Option Group → CgroupPool → Outcome
resized cg none p = panics
resized cg (some g) p = next (record p { groups = update p.groups cg g })

-- A sandbox sets the memory limit of its group, at a pause or at the end of one.
unfoldable pub resize : Conf → ℕ → ℕ → CgroupPool → Outcome
resize c mb cg p =
    if elem cg p.used then resized cg (set_mem_limit_mb c mb (p.groups cg)) p else waits

abbrev pub hand_out : ℕ → ℕ → List ℕ → Option Group → CgroupPool → Outcome
hand_out percent cg cgs none p = panics
hand_out percent cg cgs (some g) p = next (record p {
  ready = cgs;
  used = cg ∷ p.used;
  groups = update p.groups cg (set_cpu_percent percent g);
})

unfoldable pub get_cg : Conf → ℕ → ℕ → List ℕ → CgroupPool → Outcome
get_cg c mb percent [] p = waits
get_cg c mb percent (cg ∷ cgs) p = hand_out percent cg cgs (set_mem_limit_mb c mb (p.groups cg)) p

-- A sandbox freezes or thaws its group.
unfoldable pub set_freeze_state : Bool → ℕ → CgroupPool → Outcome
set_freeze_state state cg p =
    if elem cg p.used
    then next (record p { groups = update p.groups cg (record (p.groups cg) { frozen = state }) })
    else waits

-- The end of `KillAndRelease`, when the processes are dead.
abbrev pub release : Conf → (ℕ → Bool) → ℕ → CgroupPool → Outcome
release c removes cg p =
    if c.reuse_cgroups
    then (if ltb (length p.recycled) cgroup_reserve
        then next (record p { recycled = p.recycled ++ cg ∷ []; used = erase cg p.used })
        else after_destroy (destroy removes 100) cg (record p { used = erase cg p.used }))
    else after_destroy (destroy removes 100) cg (record p { used = erase cg p.used })

unfoldable pub kill_and_release : Conf → Bool → (ℕ → Bool) → ℕ → CgroupPool → Outcome
kill_and_release c killed removes cg p =
    if elem cg p.used then (if killed then release c removes cg p else panics) else waits

pub data Event : Type 0 where
  fetches : Bool → Event
  offers : Event
  quits : (ℕ → Bool) → Event
  drains : Bool → (ℕ → Bool) → Event
  gets : ℕ → ℕ → Event
  freezes : Bool → ℕ → Event
  resizes : ℕ → ℕ → Event
  releases : Bool → (ℕ → Bool) → ℕ → Event

unfoldable pub step : Conf → Event → CgroupPool → Outcome
step c (fetches thaws) p = cg_task_fetch c thaws p.phase p
step c offers p = cg_task_offer p.phase p
step c (quits removes) p = cg_task_quit removes p.phase p
step c (drains from_ready removes) p = cg_task_drain from_ready removes p.phase p
step c (gets mb percent) p = get_cg c mb percent p.ready p
step c (freezes state cg) p = set_freeze_state state cg p
step c (resizes mb cg) p = resize c mb cg p
step c (releases killed removes cg) p = kill_and_release c killed removes cg p

abbrev pub and_then : Outcome → (CgroupPool → Outcome) → Outcome
and_then (next p) f = f p
and_then waits f = waits
and_then panics f = panics

unfoldable pub run : Conf → List Event → CgroupPool → Outcome
run c [] p = next p
run c (e ∷ es) p = and_then (step c e p) (run c es)
