-- ===== src/SafeSandbox/Lifecycle.antt =====
-- What a listener hears of one sandbox (go/worker/sandbox/safeSandbox.go): the promise that
-- go/worker/sandbox/api.go makes of the events, as an automaton, and that every run keeps it.
use open_lambda.Prelude.{
  ℕ, suc, ◌-◌, ◌<◌, ◌≡◌, refl, ◌∙◌, Bool, true, false, List, [], ◌∷◌, ◌++◌, Option, none, some,
  arith, if◌then◌else◌, ◌==◌, count, Option-cases, inl, inr,
}
use open_lambda.SandboxApi.{EventType, DeadError, Sandbox}
use open_lambda.SafeSandbox.{
  SafeSandbox, Notice, Failure, Call, destroys, destroys_if_paused, pauses, unpauses, forks,
  child_exits, new_safe_sandbox, notify, event, start_notifying_listeners, step, run,
}

-- Where a sandbox stands in the eyes of a listener, with the number of its living children.
pub data Phase : Type 0 where
  unborn : Phase
  awake asleep : ℕ → Phase
  gone : Phase

-- The events that may come next. None may follow the destruction.
abbrev pub advance : Phase → EventType → Option Phase
advance unborn EventType.create = some (awake 0)
advance (awake n) EventType.pause = some (asleep n)
advance (asleep n) EventType.unpause = some (awake n)
advance (awake n) EventType.fork = some (awake (suc n))
advance (asleep n) EventType.fork = some (asleep (suc n))
advance (awake (suc n)) EventType.child_exit = some (awake n)
advance (asleep (suc n)) EventType.child_exit = some (asleep n)
advance (awake n) EventType.destroy_ignored = some (awake n)
advance (awake n) EventType.destroy = some gone
advance (asleep n) EventType.destroy = some gone
advance _ _ = none

abbrev pub advance_all : Phase → List EventType → Option Phase
advance_all p [] = some p
advance_all p (ev ∷ evs) = elim (advance p ev) [ none ↦ none | some q ↦ advance_all q evs ]

-- What handler `h` is called with.
abbrev pub heard : ℕ → List Notice → List EventType
heard h [] = []
heard h ((k, ev) ∷ ns) = if k == h then ev ∷ heard h ns else heard h ns

heard-append : (h : ℕ) (xs ys : List Notice) → heard h (xs ++ ys) ≡ heard h xs ++ heard h ys
heard-append h [] ys = refl
heard-append h (x ∷ xs) ys = ground (arith, heard-append h xs ys)

heard_none : (h : ℕ) (hs : List ℕ) (ev : EventType) → count h hs ≡ 0 → heard h (notify hs ev) ≡ []
unfolding notify
heard_none h [] ev e = refl
heard_none h (k ∷ hs) ev e = ground (arith, heard_none h hs ev)

heard_once :
    (h : ℕ) (hs : List ℕ) (ev : EventType) → count h hs ≡ 1 → heard h (notify hs ev) ≡ ev ∷ []
unfolding notify
heard_once h [] ev e = absurd (omega arith)
heard_once h (k ∷ hs) ev e = ground (arith, heard_once h hs ev, heard_none h hs ev)

advance_all-append :
    (p q : Phase) (xs ys : List EventType)
    → advance_all p xs ≡ some q
    → advance_all p (xs ++ ys) ≡ advance_all q ys
advance_all-append p q [] ys e = ground arith
advance_all-append p q (x ∷ xs) ys e = elim (Option-cases (advance p x)) [
  | inl stuck ↦ cc (rw (stuck, advance_all) at e)
  | inr (r, moved) ↦
      rw (moved, advance_all) (advance_all-append r q xs ys (rw (moved, advance_all) at e))
]

abbrev pub life : {E : Type 0} → Option (DeadError E) → Bool → ℕ → Phase
life (some d) paused n = gone
life none true n = asleep n
life none false n = awake n

-- A child exits only if there is one.
abbrev pub IsAllowed : ℕ → Call → Type 0
IsAllowed n (child_exits child) = 0 < n
IsAllowed n _ = Unit {0}

-- The children after a call that returned an error or none.
abbrev pub children : {E : Type 0} → ℕ → Call → Option (Failure E) → ℕ
children n (forks dst) none = suc n
children n (child_exits child) f = n - 1
children n _ f = n

module _ {S E : Type 0} where
  abbrev pub phase : SafeSandbox S E → ℕ → Phase
  phase sb n = life sb.dead sb.paused n

  module _ (api : Sandbox S E) (h : ℕ) where
    -- Every call is allowed where it is made.
    abbrev pub Matched : ℕ → List Call → SafeSandbox S E → Type 0
    Matched n [] sb = Unit {0}
    Matched n (c ∷ cs) sb =
        let (sb', _, f) = step api c sb in IsAllowed n c × Matched (children n c f) cs sb'

    -- The living children after some calls: the forks that succeeded less the exits.
    abbrev pub living : ℕ → List Call → SafeSandbox S E → ℕ
    living n [] sb = n
    living n (c ∷ cs) sb = let (sb', _, f) = step api c sb in living (children n c f) cs sb'

    step-event_handlers :
        (c : Call) (sb : SafeSandbox S E) → (step api c sb).0.event_handlers ≡ sb.event_handlers
    unfolding step
    step-event_handlers (forks dst) sb = ground arith
    step-event_handlers c sb = ground arith

    step-advance :
        (c : Call) (sb : SafeSandbox S E) (n : ℕ)
        → count h sb.event_handlers ≡ 1
        → IsAllowed n c
        → let (sb', notices, f) = step api c sb in
          advance_all (phase sb n) (heard h notices) ≡ some (phase sb' (children n c f))
    unfolding step event
    step-advance (forks dst) sb n once ok =
        ground (arith, heard_once h sb.event_handlers EventType.fork)
    step-advance (destroys r) sb n once ok =
        ground (arith, heard_once h sb.event_handlers EventType.destroy)
    step-advance (destroys_if_paused r) sb n once ok = ground (
      arith,
      heard_once h sb.event_handlers EventType.destroy,
      heard_once h sb.event_handlers EventType.destroy_ignored,
    )
    step-advance pauses sb n once ok = ground (
      arith,
      heard_once h sb.event_handlers EventType.destroy,
      heard_once h sb.event_handlers EventType.pause,
    )
    step-advance unpauses sb n once ok = ground (
      arith,
      heard_once h sb.event_handlers EventType.destroy,
      heard_once h sb.event_handlers EventType.unpause,
      heard-append h (notify sb.event_handlers EventType.unpause)
          (notify sb.event_handlers EventType.destroy),
    )
    step-advance (child_exits child) sb n once ok =
        ground (arith, heard_once h sb.event_handlers EventType.child_exit)

    run-advance :
        (cs : List Call) (sb : SafeSandbox S E) (n : ℕ)
        → count h sb.event_handlers ≡ 1
        → Matched n cs sb
        → let (sb', notices) = run api cs sb in
          advance_all (phase sb n) (heard h notices) ≡ some (phase sb' (living n cs sb))
    unfolding run
    run-advance [] sb n once ok = refl
    run-advance (c ∷ cs) sb n once ok =
        let (sb', notices, f) = step api c sb in
        let rest = run-advance cs sb' (children n c f) (rw (step-event_handlers c sb) once) ok.1 in
        rw (heard-append h notices (run api cs sb').1) (
          advance_all-append (phase sb n) (phase sb' (children n c f)) (heard h notices) _
            (step-advance c sb n once ok.0)
          ∙ rest)

    -- A listener that is registered once, from the moment `startNotifyingListeners` is called on a
    -- new sandbox and through any calls in which no more children exit than were forked, hears a
    -- sequence that `advance` accepts: a creation first, pauses and unpauses in turn, and nothing
    -- after the destruction. An unpause is heard before it is tried, so also where it fails and the
    -- destruction follows. Where the sequence leaves the automaton is where the sandbox stands: gone
    -- if it is dead, else asleep or awake as it is paused or not, with its living children.
    pub run_lifecycle :
        (s : S) (handlers : List ℕ) (cs : List Call)
        → count h handlers ≡ 1
        → Matched 0 cs (start_notifying_listeners handlers (new_safe_sandbox {E = E} s)).0
        → let (sb, first, _) = start_notifying_listeners handlers (new_safe_sandbox {E = E} s) in
          let (sb', later) = run api cs sb in
          advance_all unborn (heard h (first ++ later)) ≡ some (phase sb' (living 0 cs sb))
    unfolding start_notifying_listeners new_safe_sandbox event
    run_lifecycle s handlers cs once ok =
        let (sb, first, _) = start_notifying_listeners handlers (new_safe_sandbox {E = E} s) in
        rw (heard-append h first (run api cs sb).1, heard_once h handlers EventType.create once)
          (run-advance cs sb 0 once ok)
