-- ===== src/Evictor/Watching.antt =====
-- An evictor (go/worker/sandbox/evictors.go) that listens to one sandbox
-- (go/worker/sandbox/safeSandbox.go), from the creation of the sandbox on.
use open_lambda.Prelude.{
  ℕ, ◌+◌, ◌*◌, ◌≡◌, refl, ◌∙◌, Bool, true, false, List, [], ◌∷◌, ◌++◌, Option, none, some, arith,
  if◌then◌else◌, ◌==◌, ==_iff, Bool-cases, inl, inr, count,
}
use open_lambda.SandboxApi.{EventType, Sandbox, DeadError}
use open_lambda.SafeSandbox.{SafeSandbox, Call, new_safe_sandbox, start_notifying_listeners, run}
use open_lambda.SafeSandbox.Lifecycle.{unborn, heard, life, phase, Matched, living, run_lifecycle}
use open_lambda.Evictor.{Evictor, new_sock_evictor, update_state}
use open_lambda.Evictor.Queues.{Inv}
use open_lambda.Evictor.Tracking.{priority_of, events_of, update_state_lifecycles}

-- The messages on the evictor's channel: the events, each with the sandbox.
abbrev pub tagged : ℕ → List EventType → List (EventType × ℕ)
tagged sb [] = []
tagged sb (ev ∷ evs) = (ev, sb) ∷ tagged sb evs

events_of-tagged :
    (sb j : ℕ) (evs : List EventType) → events_of j (tagged sb evs) ≡ (if sb == j then evs else [])
events_of-tagged sb j [] = ground arith
events_of-tagged sb j (ev ∷ evs) = ground (arith, events_of-tagged sb j evs)

-- What the evictor should believe of a sandbox with `n` living children.
abbrev pub due : {S E : Type 0} → SafeSandbox S E → ℕ → ℕ
due sb n = elim sb.dead [ some d ↦ 0 | none ↦ if sb.paused then 2 * n else 2 * n + 1 ]

priority_of-life :
    {E : Type 0} (d : Option (DeadError E)) (paused : Bool) (n : ℕ)
    → priority_of (life d paused n)
      ≡ elim d [ some x ↦ 0 | none ↦ if paused then 2 * n else 2 * n + 1 ]
priority_of-life none true n = refl
priority_of-life none false n = refl
priority_of-life (some d) paused n = refl

module _ {S E : Type 0} (api : Sandbox S E) (h sb : ℕ) where
  -- Whatever is called on a new sandbox, as long as no more children exit than were forked, the
  -- evictor that hears of it from its start reads all the events without a panic, and in the end
  -- its priority for the sandbox is 0 if the sandbox is dead and otherwise twice the number of its
  -- living children, plus one unless the sandbox is paused.
  pub watches :
      (s : S) (handlers : List ℕ) (cs : List Call)
      → count h handlers ≡ 1
      → Matched api h 0 cs (start_notifying_listeners handlers (new_safe_sandbox {E = E} s)).0
      → let (start, first, _) = start_notifying_listeners handlers (new_safe_sandbox {E = E} s) in
        let (end, later) = run api cs start in
        (e : Evictor) × (update_state (tagged sb (heard h (first ++ later))) new_sock_evictor
          ≡ some e)
        × (e.priority sb ≡ due end (living api h 0 cs start))
        × Inv e
  watches s handlers cs once ok =
      let (start, first, _) = start_notifying_listeners handlers (new_safe_sandbox {E = E} s) in
      let (end, later) = run api cs start in
      let evs = heard h (first ++ later) in
      let n = living api h 0 cs start in
      let accepted = run_lifecycle api h s handlers cs once ok in
      let after = λ (j : ℕ). if sb == j then phase end n else unborn in
      let (e, reads, tracks, inv) = update_state_lifecycles (tagged sb evs) after (λ j.
        rw (events_of-tagged sb j evs) (elim (Bool-cases (sb == j)) [
          | inl same ↦ rw same accepted
          | inr other ↦ rw other refl
        ])) in
      (
        e,
        reads,
        tracks sb ∙ rw ((==_iff sb sb).1 refl) (priority_of-life end.dead end.paused n),
        inv,
      )
