-- ===== src/SafeSandbox.antt =====
-- go/worker/sandbox/safeSandbox.go: the layer that wraps every sandbox. A method holds the mutex for
-- all of its body, so it is one step. It returns the new state, the calls of event handlers that it
-- makes, in order, and its error. Log lines and timers are left out.
pub mod Dead
pub mod Lifecycle
mod Tests
use Prim.Native.String.{String}
use open_lambda.Prelude.{ℕ, Bool, true, false, List, [], ◌∷◌, ◌++◌, map, Option, none, some}
use open_lambda.SandboxApi.{
  EventType, Func, pause_func, unpause_func, Reason, returned, stated, DeadError, killed_after,
  killed_while, killed_paused, Sandbox,
}

pub record SafeSandbox (S E : Type 0) : Type 0 where
  pub inner : S
  pub paused : Bool
  pub dead : Option (DeadError E)
  pub event_handlers : List ℕ

-- An error that a method returns: that of a dead sandbox, or the wrapped sandbox's own.
pub data Failure (E : Type 0) : Type 0 where
  dead_error : DeadError E → Failure E
  inner_error : E → Failure E

-- A call of a handler.
abbrev pub Notice : Type 0
Notice = ℕ × EventType

-- The methods that change the state.
pub data Call : Type 0 where
  destroys : String → Call
  destroys_if_paused : String → Call
  pauses : Call
  unpauses : Call
  forks : ℕ → Call
  child_exits : ℕ → Call

abbrev pub Outcome : Type 0 → Type 0 → Type 0
Outcome S E = SafeSandbox S E × List Notice × Option (Failure E)

-- The loop of `event`: every handler in turn.
unfoldable pub notify : List ℕ → EventType → List Notice
notify [] ev = []
notify (h ∷ hs) ev = (h, ev) ∷ notify hs ev

module _ {S E : Type 0} where
  unfoldable pub new_safe_sandbox : S → SafeSandbox S E
  new_safe_sandbox s = record { inner = s; paused = false; dead = none; event_handlers = [] }

  unfoldable pub event : SafeSandbox S E → EventType → List Notice
  event sb ev = notify sb.event_handlers ev

  unfoldable pub start_notifying_listeners : List ℕ → SafeSandbox S E → Outcome S E
  start_notifying_listeners handlers sb =
      let sb' = record sb { event_handlers = handlers } in (sb', event sb' EventType.create, none)

  module _ (api : Sandbox S E) where
    -- `destroyOnErr`, for an error that is not nil.
    unfoldable pub destroy_on_err : Func → E → SafeSandbox S E → SafeSandbox S E × List Notice
    destroy_on_err f e sb = (
      record sb { inner = api.destroy (returned f e) sb.inner; dead = some (killed_after f e) },
      event sb EventType.destroy,
    )

    unfoldable pub destroy : String → SafeSandbox S E → Outcome S E
    destroy reason sb = elim sb.dead [
      | some d ↦ (sb, [], none)
      | none ↦ (
        record sb {
          inner = api.destroy (stated reason) sb.inner;
          dead = some (killed_while reason sb.paused);
        },
        event sb EventType.destroy,
        none,
      )
    ]

    -- `DestroyIfPaused`, on a sandbox that is alive.
    unfoldable pub destroy_paused : Bool → String → SafeSandbox S E → Outcome S E
    destroy_paused true reason sb = (
      record sb {
        inner = api.destroy (stated reason) sb.inner;
        dead = some (killed_paused reason);
      },
      event sb EventType.destroy,
      none,
    )
    destroy_paused false reason sb = (sb, event sb EventType.destroy_ignored, none)

    unfoldable pub destroy_if_paused : String → SafeSandbox S E → Outcome S E
    unfolding destroy_paused
    destroy_if_paused reason sb = elim sb.dead [
      | some d ↦ (sb, [], none)
      | none ↦ destroy_paused sb.paused reason sb
    ]

    -- What `Pause` does after the wrapped sandbox has answered.
    unfoldable pub paused_inner : S × Option E → SafeSandbox S E → Outcome S E
    unfolding destroy_on_err
    paused_inner (s, none) sb =
        (record sb { inner = s; paused = true }, event sb EventType.pause, none)
    paused_inner (s, some e) sb =
        let (sb', notices) = destroy_on_err pause_func e (record sb { inner = s }) in
        (sb', notices, some (inner_error e))

    unfoldable pub pause_alive : Bool → SafeSandbox S E → Outcome S E
    unfolding paused_inner
    pause_alive true sb = (sb, [], none)
    pause_alive false sb = paused_inner (api.pause sb.inner) sb

    unfoldable pub pause : SafeSandbox S E → Outcome S E
    unfolding pause_alive
    pause sb = elim sb.dead [
      | some d ↦ (sb, [], some (dead_error d))
      | none ↦ pause_alive sb.paused sb
    ]

    -- What `Unpause` does after the wrapped sandbox has answered. Its event comes first.
    unfoldable pub unpaused_inner : S × Option E → SafeSandbox S E → Outcome S E
    unfolding destroy_on_err
    unpaused_inner (s, none) sb =
        (record sb { inner = s; paused = false }, event sb EventType.unpause, none)
    unpaused_inner (s, some e) sb =
        let (sb', notices) = destroy_on_err unpause_func e (record sb { inner = s }) in
        (sb', event sb EventType.unpause ++ notices, some (inner_error e))

    unfoldable pub unpause_alive : Bool → SafeSandbox S E → Outcome S E
    unfolding unpaused_inner
    unpause_alive false sb = (sb, [], none)
    unpause_alive true sb = unpaused_inner (api.unpause sb.inner) sb

    unfoldable pub unpause : SafeSandbox S E → Outcome S E
    unfolding unpause_alive
    unpause sb = elim sb.dead [
      | some d ↦ (sb, [], some (dead_error d))
      | none ↦ unpause_alive sb.paused sb
    ]

    unfoldable pub forked_inner : S × Option E → SafeSandbox S E → Outcome S E
    forked_inner (s, none) sb = (record sb { inner = s }, event sb EventType.fork, none)
    forked_inner (s, some e) sb = (record sb { inner = s }, [], some (inner_error e))

    -- A failed fork does not kill the parent.
    unfoldable pub fork : ℕ → SafeSandbox S E → Outcome S E
    unfolding forked_inner
    fork dst sb = elim sb.dead [
      | some d ↦ (sb, [], some (dead_error d))
      | none ↦ forked_inner (api.fork dst sb.inner) sb
    ]

    -- The wrapped sandbox hears of every exit, the listeners only while it is alive.
    unfoldable pub child_exit : ℕ → SafeSandbox S E → Outcome S E
    child_exit child sb =
        let sb' = record sb { inner = api.child_exit child sb.inner } in
        elim sb.dead [
          | some d ↦ (sb', [], none)
          | none ↦ (sb', event sb' EventType.child_exit, none)
        ]

    unfoldable pub step : Call → SafeSandbox S E → Outcome S E
    unfolding destroy destroy_if_paused pause unpause fork child_exit
    step (destroys reason) sb = destroy reason sb
    step (destroys_if_paused reason) sb = destroy_if_paused reason sb
    step pauses sb = pause sb
    step unpauses sb = unpause sb
    step (forks dst) sb = fork dst sb
    step (child_exits child) sb = child_exit child sb

    -- Calls in the order in which they take the mutex.
    unfoldable pub run : List Call → SafeSandbox S E → SafeSandbox S E × List Notice
    run [] sb = (sb, [])
    run (c ∷ cs) sb =
        let (sb', notices, _) = step c sb in
        let (sb'', later) = run cs sb' in (sb'', notices ++ later)
