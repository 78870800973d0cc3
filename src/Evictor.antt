-- ===== src/Evictor.antt =====
-- go/worker/sandbox/evictors.go: which sandboxes a worker kills when memory runs short.
-- Sandboxes are known by their IDs. The map `priority` gives 0 where it has no entry, as Go's does.
-- A queue element is found again by the ID that it holds.
pub mod Queues
pub mod Tracking
pub mod Policy
pub mod Kills
pub mod Evictions
pub mod Watching
mod Tests
use open_lambda.Prelude.{
  ℕ, suc, zero, ◌+◌, ◌-◌, ◌*◌, ◌/◌, Bool, true, false, List, [], ◌∷◌, ◌++◌, Option, none, some,
  if◌then◌else◌, ltb, leb, length, erase, ◌&&◌, ◌==◌,
}
use open_lambda.Prelude.Int.{ℤ, pos, ◌+ℤ◌, ◌-ℤ◌, ◌*ℤ◌, quot, ltb_ℤ, leb_ℤ, pos_part}
use open_lambda.Prelude.Maps.{update}
use open_lambda.SandboxApi.{EventType}

-- `prioQueues[0]`, `[1]`, `[2]` and `evicting`.
pub data Queue : Type 0 where
  idle running parents evicting : Queue

pub record Evictor : Type 0 where
  pub priority : ℕ → ℕ
  pub idle_list : List ℕ
  pub running_list : List ℕ
  pub parents_list : List ℕ
  pub evicting_list : List ℕ
  pub state_map : ℕ → Option Queue

unfoldable pub new_sock_evictor : Evictor
new_sock_evictor = record {
  priority = λ _. 0;
  idle_list = [];
  running_list = [];
  parents_list = [];
  evicting_list = [];
  state_map = λ _. none;
}

abbrev pub list_of : Queue → Evictor → List ℕ
list_of idle e = e.idle_list
list_of running e = e.running_list
list_of parents e = e.parents_list
list_of evicting e = e.evicting_list

abbrev pub set_list : Queue → List ℕ → Evictor → Evictor
set_list idle l e = record e { idle_list = l }
set_list running l e = record e { running_list = l }
set_list parents l e = record e { parents_list = l }
set_list evicting l e = record e { evicting_list = l }

-- The first half of `move`: off the queue that the sandbox is on, if any.
unfoldable pub take_off : Option Queue → ℕ → Evictor → Evictor
take_off none sb e = e
take_off (some q) sb e = set_list q (erase sb (list_of q e)) e

-- The second half: to the back of the target, or out of the map.
unfoldable pub put_on : Option Queue → ℕ → Evictor → Evictor
put_on (some q) sb e =
    let e' = set_list q (list_of q e ++ sb ∷ []) e in
    record e' { state_map = update e'.state_map sb (some q) }
put_on none sb e = record e { state_map = update e.state_map sb none }

unfoldable pub move : ℕ → Option Queue → Evictor → Evictor
unfolding take_off put_on
move sb target e = put_on target sb (take_off (e.state_map sb) sb e)

-- The priority after an event; `none` is a panic. A priority that would fall below 0 is one.
abbrev pub lower : ℕ → ℕ → Option ℕ
lower k prio = if ltb prio k then none else some (prio - k)

unfoldable pub next_priority : EventType → ℕ → Option ℕ
next_priority EventType.create prio = if prio == 0 then some (prio + 1) else none
next_priority EventType.unpause prio = some (prio + 1)
next_priority EventType.pause prio = lower 1 prio
next_priority EventType.fork prio = some (prio + 2)
next_priority EventType.child_exit prio = lower 2 prio
next_priority EventType.destroy prio = some prio
next_priority EventType.destroy_ignored prio = some prio

-- The queue of a priority, saturated at the last one.
abbrev pub queue_of : ℕ → Queue
queue_of zero = idle
queue_of (suc zero) = running
queue_of (suc (suc n)) = parents

-- What the loop of `updateState` does once the new priority is known.
unfoldable pub record_priority : EventType → ℕ → ℕ → Evictor → Evictor
record_priority EventType.destroy sb prio e =
    let e' = move sb none e in record e' { priority = update e'.priority sb 0 }
record_priority ev sb prio e =
    move sb (some (queue_of prio)) (record e { priority = update e.priority sb prio })

-- One event.
unfoldable pub handle : EventType → ℕ → Evictor → Option Evictor
handle ev sb e = elim (next_priority ev (e.priority sb)) [
  | none ↦ none
  | some prio ↦ some (record_priority ev sb prio e)
]

-- `updateState`: the events that are at hand.
unfoldable pub update_state : List (EventType × ℕ) → Evictor → Option Evictor
update_state [] e = some e
update_state ((ev, sb) ∷ evs) e = elim (handle ev sb e) [
  | none ↦ none
  | some e' ↦ update_state evs e'
]

-- A kill that is started: the sandbox, and whether it is forced (`Destroy`) or only wanted
-- (`DestroyIfPaused`).
pub record Kill : Type 0 where
  pub victim : ℕ
  pub force : Bool

-- `evictFront`. The queue is not empty where it is called; `none` is the fault that follows if it is.
unfoldable pub evict_front : Queue → Bool → Evictor → Option (Evictor × Kill)
evict_front q force e = elim (list_of q e) [
  | [] ↦ none
  | sb ∷ rest ↦ some (move sb (some evicting) e, record { victim = sb; force = force })
]

abbrev pub free_sandboxes_percent_goal : ℕ
free_sandboxes_percent_goal = 20

abbrev pub concurrent_evictions : ℕ
concurrent_evictions = 8

-- How many sandboxes should fit besides those that run.
unfoldable pub free_goal : ℕ → ℕ → ℤ
free_goal total limit =
    pos 1 +ℤ quot ((pos (total / limit) -ℤ pos 2) *ℤ pos free_sandboxes_percent_goal) 100

-- How many to evict, capped by the kills under way.
unfoldable pub evict_count : ℕ → ℤ → ℕ → ℤ
evict_count free goal under_way =
    let wanted = goal -ℤ pos free in
    let cap = pos concurrent_evictions -ℤ pos under_way in if ltb_ℤ cap wanted then cap else wanted

-- The loop over the idle queue: `n` more evictions, while there is someone to evict.
unfoldable pub evict_idle : ℕ → Evictor → Evictor × List Kill
evict_idle zero e = (e, [])
evict_idle (suc n) e = elim (evict_front idle false e) [
  | none ↦ (e, [])
  | some (e', k) ↦ let (e'', ks) = evict_idle n e' in (e'', k ∷ ks)
]

-- The emergency: no room for a sandbox and no kill under way.
unfoldable pub evict_running : ℕ → Evictor → Evictor × List Kill
evict_running free e =
    if free == 0 && length e.evicting_list == 0
    then (elim (evict_front running true e) [ none ↦ (e, []) | some (e', k) ↦ (e', k ∷ []) ])
    else (e, [])

-- `doEvictions` with the quotients by the limit at hand.
unfoldable pub evict : ℕ → ℤ → Evictor → Evictor × List Kill
evict free goal e =
    let (e', ks) = evict_idle (pos_part (evict_count free goal (length e.evicting_list))) e in
    let (e'', ks') = evict_running free e' in (e'', ks ++ ks')

-- `doEvictions`, for `available` of `total` MB and a limit of `limit` MB for a sandbox. The division
-- by a limit of 0 is a panic.
unfoldable pub do_evictions : ℕ → ℕ → ℕ → Evictor → Option (Evictor × List Kill)
do_evictions total limit available e =
    if limit == 0 then none else some (evict (available / limit) (free_goal total limit) e)
