-- ===== src/Evictor/Queues.antt =====
-- The queues of the evictor (go/worker/sandbox/evictors.go): each sandbox is on at most one.
use open_lambda.Prelude.{
  ap, subst, eq_of-some, ◌≤◌, ℕ, suc, zero, ◌≡◌, ◌≢◌, refl, inl, inr, List, [], ◌∷◌, Option, none,
  some, arith, if◌then◌else◌, ◌==◌, Bool-cases, Option-cases, count, count-append, count-erase_self,
  count-erase_ne,
}
use open_lambda.Prelude.Maps.{update}
use open_lambda.SandboxApi.{EventType}
use open_lambda.Evictor.{
  Queue, idle, running, parents, evicting, Evictor, new_sock_evictor, list_of, take_off, put_on,
  move, next_priority, record_priority, handle, update_state, queue_of,
}

-- 1 where the map says that a sandbox is on the queue, else 0.
abbrev pub on : Option Queue → Queue → ℕ
on (some idle) idle = 1
on (some running) running = 1
on (some parents) parents = 1
on (some evicting) evicting = 1
on _ _ = 0

-- Every sandbox stands once on the queue that the map gives, and on no other.
abbrev pub IsValid : Evictor → Type 0
IsValid e = (sb : ℕ) (q : Queue) → count sb (list_of q e) ≡ on (e.state_map sb) q

take_off-state_map :
    (o : Option Queue) (sb : ℕ) (e : Evictor) → (take_off o sb e).state_map ≡ e.state_map
unfolding take_off
take_off-state_map none sb e = refl
take_off-state_map (some idle) sb e = refl
take_off-state_map (some q) sb e = refl

count-take_off_self :
    (o : Option Queue) (sb : ℕ) (e : Evictor) (q : Queue)
    → count sb (list_of q e) ≡ on o q
    → count sb (list_of q (take_off o sb e)) ≡ 0
unfolding take_off
count-take_off_self none sb e idle h = h
count-take_off_self (some idle) sb e idle h = omega (arith, count-erase_self sb e.idle_list)
count-take_off_self (some running) sb e running h =
    omega (arith, count-erase_self sb e.running_list)
count-take_off_self (some parents) sb e parents h =
    omega (arith, count-erase_self sb e.parents_list)
count-take_off_self (some evicting) sb e evicting h =
    omega (arith, count-erase_self sb e.evicting_list)
count-take_off_self _ sb e q h = h

count-take_off_ne :
    (o : Option Queue) (sb : ℕ) (e : Evictor) (q : Queue) (j : ℕ)
    → sb ≢ j
    → count j (list_of q (take_off o sb e)) ≡ count j (list_of q e)
unfolding take_off
count-take_off_ne none sb e q j h = refl
count-take_off_ne (some idle) sb e idle j h = count-erase_ne sb j e.idle_list h
count-take_off_ne (some running) sb e running j h = count-erase_ne sb j e.running_list h
count-take_off_ne (some parents) sb e parents j h = count-erase_ne sb j e.parents_list h
count-take_off_ne (some evicting) sb e evicting j h = count-erase_ne sb j e.evicting_list h
count-take_off_ne _ sb e q j h = refl

put_on-IsValid :
    (t : Option Queue) (sb : ℕ) (e : Evictor)
    → ((q : Queue) → count sb (list_of q e) ≡ 0)
    → ((j : ℕ) (q : Queue) → sb ≢ j → count j (list_of q e) ≡ on (e.state_map j) q)
    → IsValid (put_on t sb e)
unfolding put_on
put_on-IsValid none sb e gone rest j q = ground (arith, gone q, rest j q)
put_on-IsValid (some idle) sb e gone rest j idle =
    ground (arith, gone idle, rest j idle, count-append j e.idle_list (sb ∷ []))
put_on-IsValid (some running) sb e gone rest j running =
    ground (arith, gone running, rest j running, count-append j e.running_list (sb ∷ []))
put_on-IsValid (some parents) sb e gone rest j parents =
    ground (arith, gone parents, rest j parents, count-append j e.parents_list (sb ∷ []))
put_on-IsValid (some evicting) sb e gone rest j evicting =
    ground (arith, gone evicting, rest j evicting, count-append j e.evicting_list (sb ∷ []))
put_on-IsValid (some t) sb e gone rest j q = ground (arith, gone q, rest j q)

pub move-IsValid : (sb : ℕ) (t : Option Queue) (e : Evictor) → IsValid e → IsValid (move sb t e)
unfolding move
move-IsValid sb t e v =
    put_on-IsValid t sb (take_off (e.state_map sb) sb e)
      (λ q. count-take_off_self (e.state_map sb) sb e q (v sb q))
      (λ j q ne.
        rw
          (count-take_off_ne (e.state_map sb) sb e q j ne, take_off-state_map (e.state_map sb) sb e)
          (v j q))

-- Where a sandbox is after a move.
pub state_map-move :
    (sb j : ℕ) (t : Option Queue) (e : Evictor)
    → (move sb t e).state_map j ≡ (if sb == j then t else e.state_map j)
unfolding move put_on
state_map-move sb j none e = ground (arith, take_off-state_map (e.state_map sb) sb e)
state_map-move sb j (some q) e = ground (arith, take_off-state_map (e.state_map sb) sb e)

-- A sandbox is on the queue of its priority, or being evicted, and then it has no child.
abbrev pub Placed : Option Queue → ℕ → Type 0
Placed none prio = prio ≡ 0
Placed (some idle) prio = prio ≡ 0
Placed (some running) prio = prio ≡ 1
Placed (some parents) prio = 2 ≤ prio
Placed (some evicting) prio = prio ≤ 1

pub record Inv (e : Evictor) : Type 0 where
  pub valid : IsValid e
  pub placed : (sb : ℕ) → Placed (e.state_map sb) (e.priority sb)

pub new_sock_evictor-Inv : Inv new_sock_evictor
unfolding new_sock_evictor
new_sock_evictor-Inv = record { valid = empty; placed = λ sb. refl }
  where
    empty : (sb : ℕ) (q : Queue) → count sb (list_of q new_sock_evictor) ≡ 0
    empty sb idle = refl
    empty sb _ = refl

Placed-queue_of : (prio : ℕ) → Placed (some (queue_of prio)) prio
Placed-queue_of zero = refl
Placed-queue_of (suc zero) = refl
Placed-queue_of (suc (suc n)) = omega arith

priority-take_off :
    (o : Option Queue) (sb : ℕ) (e : Evictor) → (take_off o sb e).priority ≡ e.priority
unfolding take_off
priority-take_off none sb e = refl
priority-take_off (some idle) sb e = refl
priority-take_off (some q) sb e = refl

pub priority-move : (sb : ℕ) (t : Option Queue) (e : Evictor) → (move sb t e).priority ≡ e.priority
unfolding move put_on
priority-move sb none e = priority-take_off (e.state_map sb) sb e
priority-move sb (some idle) e = priority-take_off (e.state_map sb) sb e
priority-move sb (some q) e = priority-take_off (e.state_map sb) sb e

-- The priorities do not matter to the queues.
relabel-IsValid : (e : Evictor) (f : ℕ → ℕ) → IsValid e → IsValid (record e { priority = f })
relabel-IsValid e f v j idle = v j idle
relabel-IsValid e f v j q = v j q

-- What `record_priority` does, in one form for all events.
abbrev pub target : EventType → ℕ → Option Queue
target EventType.destroy prio = none
target ev prio = some (queue_of prio)

abbrev pub kept : EventType → ℕ → ℕ
kept EventType.destroy prio = 0
kept ev prio = prio

Placed-target : (ev : EventType) (prio : ℕ) → Placed (target ev prio) (kept ev prio)
Placed-target EventType.destroy prio = refl
Placed-target ev prio = Placed-queue_of prio

pub priority-record_priority :
    (ev : EventType) (sb prio : ℕ) (e : Evictor) (j : ℕ)
    → (record_priority ev sb prio e).priority j ≡ update e.priority sb (kept ev prio) j
unfolding record_priority
priority-record_priority EventType.destroy sb prio e j = rw (priority-move sb none e)
priority-record_priority ev sb prio e j =
    ap (λ f. f j)
      (priority-move sb (some (queue_of prio)) (record e { priority = update e.priority sb prio }))

pub state_map-record_priority :
    (ev : EventType) (sb prio : ℕ) (e : Evictor) (j : ℕ)
    → (record_priority ev sb prio e).state_map j
      ≡ (if sb == j then target ev prio else e.state_map j)
unfolding record_priority
state_map-record_priority EventType.destroy sb prio e j = state_map-move sb j none e
state_map-record_priority ev sb prio e j =
    state_map-move sb j (some (queue_of prio)) (record e { priority = update e.priority sb prio })

record_priority-IsValid :
    (ev : EventType) (sb prio : ℕ) (e : Evictor)
    → IsValid e
    → IsValid (record_priority ev sb prio e)
unfolding record_priority
record_priority-IsValid EventType.destroy sb prio e v =
    relabel-IsValid (move sb none e) _ (move-IsValid sb none e v)
record_priority-IsValid ev sb prio e v =
    move-IsValid sb (some (queue_of prio)) (record e { priority = update e.priority sb prio })
      (relabel-IsValid e _ v)

pub record_priority-Inv :
    (ev : EventType) (sb prio : ℕ) (e : Evictor) → Inv e → Inv (record_priority ev sb prio e)
record_priority-Inv ev sb prio e v = record {
  valid = record_priority-IsValid ev sb prio e v.valid;
  placed = λ j.
      rw (state_map-record_priority ev sb prio e j, priority-record_priority ev sb prio e j)
        (elim (Bool-cases (sb == j)) [
          | inl same ↦ rw same (Placed-target ev prio)
          | inr other ↦ rw other (v.placed j)
        ]);
}

pub handle-Inv :
    (ev : EventType) (sb : ℕ) (e e' : Evictor) → Inv e → handle ev sb e ≡ some e' → Inv e'
unfolding handle
handle-Inv ev sb e e' v h = elim (Option-cases (next_priority ev (e.priority sb))) [
  | inl panic ↦ cc (rw (panic, handle) at h)
  | inr (prio, e₁) ↦
      subst Inv (eq_of-some (rw (e₁, handle) at h)) (record_priority-Inv ev sb prio e v)
]

-- Whatever events are read, each sandbox stays on at most one queue, the one that the map gives, and
-- on the queue of its priority unless it is being evicted; no sandbox with a child is being evicted.
pub update_state-Inv :
    (evs : List (EventType × ℕ)) (e e' : Evictor) → Inv e → update_state evs e ≡ some e' → Inv e'
unfolding update_state
update_state-Inv [] e e' v h = subst Inv (eq_of-some h) v
update_state-Inv ((ev, sb) ∷ evs) e e' v h = elim (Option-cases (handle ev sb e)) [
  | inl panic ↦ cc (rw (panic, update_state) at h)
  | inr (e₁, h₁) ↦
      update_state-Inv evs e₁ e' (handle-Inv ev sb e e₁ v h₁) (rw (h₁, update_state) at h)
]
