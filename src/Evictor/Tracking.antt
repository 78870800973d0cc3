-- ===== src/Evictor/Tracking.antt =====
-- The evictor (go/worker/sandbox/evictors.go) listens to the sandboxes
-- (go/worker/sandbox/safeSandbox.go): what it makes of events that follow the sandboxes' lifecycles.
use open_lambda.Prelude.{
  ℕ, suc, ◌+◌, ◌*◌, ◌≡◌, refl, ◌∙◌, ap, subst, inl, inr, List, [], ◌∷◌, some, eq_of-some, arith,
  if◌then◌else◌, ◌==◌, ==_iff, Bool-cases, Option-cases,
}
use open_lambda.Prelude.Maps.{update}
use open_lambda.SandboxApi.{EventType}
use open_lambda.SafeSandbox.Lifecycle.{Phase, unborn, awake, asleep, gone, advance, advance_all}
use open_lambda.Evictor.{
  Evictor, new_sock_evictor, next_priority, record_priority, handle, update_state,
}
use open_lambda.Evictor.Queues.{
  Inv, kept, priority-record_priority, handle-Inv, new_sock_evictor-Inv,
}

-- "A Sandbox's priority is 2*NUM_CHILDREN, +1 if Unpaused."
abbrev pub priority_of : Phase → ℕ
priority_of unborn = 0
priority_of (awake n) = 2 * n + 1
priority_of (asleep n) = 2 * n
priority_of gone = 0

abbrev pub Tracks : Evictor → (ℕ → Phase) → Type 0
Tracks e phases = (sb : ℕ) → e.priority sb ≡ priority_of (phases sb)

-- The events of one sandbox among those of all.
abbrev pub events_of : ℕ → List (EventType × ℕ) → List EventType
events_of sb [] = []
events_of sb ((ev, k) ∷ evs) = if k == sb then ev ∷ events_of sb evs else events_of sb evs

next_priority-advance :
    (p q : Phase) (ev : EventType)
    → advance p ev ≡ some q
    → (r : ℕ) × (next_priority ev (priority_of p) ≡ some r) × (kept ev r ≡ priority_of q)
unfolding next_priority
next_priority-advance unborn q EventType.create h = (1, ground arith, ground arith)
next_priority-advance (awake n) q EventType.pause h = (2 * n, ground arith, ground arith)
next_priority-advance (asleep n) q EventType.unpause h = (2 * n + 1, ground arith, ground arith)
next_priority-advance (awake n) q EventType.fork h = (2 * n + 3, ground arith, ground arith)
next_priority-advance (asleep n) q EventType.fork h = (2 * n + 2, ground arith, ground arith)
next_priority-advance (awake (suc n)) q EventType.child_exit h =
    (2 * n + 1, ground arith, ground arith)
next_priority-advance (asleep (suc n)) q EventType.child_exit h =
    (2 * n, ground arith, ground arith)
next_priority-advance (awake n) q EventType.destroy_ignored h =
    (2 * n + 1, ground arith, ground arith)
next_priority-advance (awake n) q EventType.destroy h = (2 * n + 1, ground arith, ground arith)
next_priority-advance (asleep n) q EventType.destroy h = (2 * n, ground arith, ground arith)
next_priority-advance p q ev h = absurd (ground arith)

advance_all-cons :
    (p r : Phase) (ev : EventType) (evs : List EventType)
    → advance_all p (ev ∷ evs) ≡ some r
    → (q : Phase) × (advance p ev ≡ some q) × (advance_all q evs ≡ some r)
advance_all-cons p r ev evs h = elim (Option-cases (advance p ev)) [
  | inl stuck ↦ cc (rw (stuck, advance_all) at h)
  | inr (q, e) ↦ (q, e, rw (e, advance_all) at h)
]

handle-Tracks :
    (ev : EventType) (sb : ℕ) (e : Evictor) (phases : ℕ → Phase) (q : Phase)
    → Tracks e phases
    → advance (phases sb) ev ≡ some q
    → (e' : Evictor) × (handle ev sb e ≡ some e') × Tracks e' (update phases sb q)
unfolding handle
handle-Tracks ev sb e phases q t h =
    let (r, step, keep) = next_priority-advance (phases sb) q ev h in
    (
      record_priority ev sb r e,
      rw (t sb, step, handle) refl,
      λ j.
          rw (priority-record_priority ev sb r e j)
            (elim (Bool-cases (sb == j)) [ inl same ↦ rw same keep | inr other ↦ rw other (t j) ]),
    )

-- The rest of the events, for every sandbox, once the first one is taken.
others :
    (ev : EventType) (k sb : ℕ) (q : Phase) (evs : List (EventType × ℕ)) (before after : ℕ → Phase)
    → advance_all q (events_of k evs) ≡ some (after k)
    → advance_all (before sb) (events_of sb ((ev, k) ∷ evs)) ≡ some (after sb)
    → advance_all (update before k q sb) (events_of sb evs) ≡ some (after sb)
others ev k sb q evs before after rest h = elim (Bool-cases (k == sb)) [
  | inl same ↦
      rw same
        (subst (λ j. advance_all q (events_of j evs) ≡ some (after j)) ((==_iff k sb).0 same) rest)
  | inr other ↦ rw other (rw other at h)
]

update_state-Tracks :
    (evs : List (EventType × ℕ)) (e : Evictor) (before after : ℕ → Phase)
    → Tracks e before
    → Inv e
    → ((sb : ℕ) → advance_all (before sb) (events_of sb evs) ≡ some (after sb))
    → (e' : Evictor) × (update_state evs e ≡ some e') × Tracks e' after × Inv e'
unfolding update_state
update_state-Tracks [] e before after t v h =
    (e, refl, λ sb. t sb ∙ ap priority_of (eq_of-some (h sb)), v)
update_state-Tracks ((ev, k) ∷ evs) e before after t v h =
    let (q, one, rest) =
      advance_all-cons (before k) (after k) ev (events_of k evs)
        (rw ((==_iff k k).1 refl) at (h k)) in
    let (e₁, h₁, t₁) = handle-Tracks ev k e before q t one in
    let (e', h', t', v') =
      update_state-Tracks evs e₁ (update before k q) after t₁ (handle-Inv ev k e e₁ v h₁)
        (λ sb. others ev k sb q evs before after rest (h sb)) in
    (e', rw (h₁, update_state) h', t', v')

-- Let the events of every sandbox be a sequence that the lifecycle allows, interleaved in any way
-- with those of the others. Then a new evictor reads them all without a panic. In the end the
-- priority of each sandbox is twice its living children, plus one if it is awake, and 0 before its
-- creation and after its destruction; each stands on at most one queue, that of its priority unless
-- it is being evicted, and none that is being evicted has a child.
pub update_state_lifecycles :
    (evs : List (EventType × ℕ)) (after : ℕ → Phase)
    → ((sb : ℕ) → advance_all unborn (events_of sb evs) ≡ some (after sb))
    → (e : Evictor) × (update_state evs new_sock_evictor ≡ some e) × Tracks e after × Inv e
unfolding new_sock_evictor
update_state_lifecycles evs after h =
    update_state-Tracks evs new_sock_evictor (λ _. unborn) after (λ sb. refl) new_sock_evictor-Inv h
