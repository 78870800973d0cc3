-- ===== src/Evictor/Tests.antt =====
-- An evictor with four sandboxes: test data, and the theorems at concrete inputs.
use open_lambda.Prelude.{
  ℕ, ◌/◌, ◌≤◌, ◌≡◌, refl, ◌⊎◌, true, List, [], ◌∷◌, ◌++◌, none, some, arith, if◌then◌else◌, ◌==◌,
  length, All,
}
use open_lambda.Prelude.Maps.{update}
use open_lambda.SandboxApi.{EventType, Sandbox}
use open_lambda.SafeSandbox.{
  forks, pauses, new_safe_sandbox, notify, event, start_notifying_listeners, step, run,
}
use open_lambda.SafeSandbox.Lifecycle.{Phase, unborn, awake, asleep, gone, advance_all, heard}
use open_lambda.Evictor.{
  idle, running, parents, Evictor, Kill, new_sock_evictor, update_state, do_evictions,
}
use open_lambda.Evictor.Queues.{IsValid, Inv}
use open_lambda.Evictor.Tracking.{Tracks, events_of, update_state_lifecycles}
use open_lambda.Evictor.Policy.{IsGentle, victims}
use open_lambda.Evictor.Evictions.{do_evictions_spares, do_evictions_policy}
use open_lambda.Evictor.Watching.{tagged, watches}

-- Sandbox 1 has a child, 2 runs, 3 is paused, 4 was destroyed.
abbrev events : List (EventType × ℕ)
events =
    (EventType.create, 1)
    ∷ (EventType.create, 2)
    ∷ (EventType.create, 4)
    ∷ (EventType.fork, 1)
    ∷ (EventType.create, 3)
    ∷ (EventType.pause, 3)
    ∷ (EventType.destroy, 4)
    ∷ []

abbrev phases : ℕ → Phase
phases sb =
    if sb == 1
    then awake 1
    else (if sb == 2
        then awake 0
        else (if sb == 3 then asleep 0 else (if sb == 4 then gone else unborn)))

events_accepted : (sb : ℕ) → advance_all unborn (events_of sb events) ≡ some (phases sb)
events_accepted sb = ground arith

update_state_lifecycles_example :
    (e : Evictor) × (update_state events new_sock_evictor ≡ some e) × Tracks e phases × Inv e
update_state_lifecycles_example = update_state_lifecycles events phases events_accepted

-- The same evictor as a value.
abbrev busy : Evictor
busy = record {
  priority = λ sb. if sb == 1 then 3 else (if sb == 2 then 1 else 0);
  idle_list = 3 ∷ [];
  running_list = 2 ∷ [];
  parents_list = 1 ∷ [];
  evicting_list = [];
  state_map = λ sb.
      if sb == 1
      then some parents
      else (if sb == 2 then some running else (if sb == 3 then some idle else none));
}

busy-IsValid : IsValid busy
busy-IsValid sb idle = ground arith
busy-IsValid sb q = ground arith

busy-Inv : Inv busy
busy-Inv = record { valid = busy-IsValid; placed = λ sb. ground arith }

-- Sandbox 2 is paused and 3 gets a child.
abbrev later_events : List (EventType × ℕ)
later_events = (EventType.pause, 2) ∷ (EventType.fork, 3) ∷ []

abbrev later_evictor : Evictor
later_evictor = record busy {
  priority = update (update busy.priority 2 0) 3 2;
  idle_list = 2 ∷ [];
  running_list = [];
  parents_list = 1 ∷ 3 ∷ [];
  state_map = update (update busy.state_map 2 (some idle)) 3 (some parents);
}

-- 100 MB in all, 50 MB for a sandbox, and 10 MB left: the idle sandbox goes.
do_evictions_spares_example :
    (e' : Evictor) × (ks : List Kill) × (do_evictions 100 50 10 busy ≡ some (e', ks))
    × Inv e'
    × (e'.parents_list ≡ 1 ∷ [])
    × All (λ k. busy.priority k.victim ≤ 1) ks
    × (e'.evicting_list ≡ victims ks)
do_evictions_spares_example = do_evictions_spares 100 50 10 busy (omega arith) busy-Inv

do_evictions_policy_example :
    (e' : Evictor) × (gently : List Kill) × (forcibly : List Kill) × (do_evictions 100 50 10 busy
      ≡ some (e', gently ++ forcibly))
    × All (IsGentle busy.priority) gently
    × All (λ k. (k.force ≡ true) × (busy.priority k.victim ≡ 1)) forcibly
    × (length gently ≡ 1)
    × ((length forcibly ≡ 0)
        ⊎ ((length forcibly ≡ 1)
            × (10 / 50 ≡ 0)
            × (length busy.evicting_list ≡ 0)
            × (length busy.idle_list ≡ 0)))
do_evictions_policy_example = do_evictions_policy 100 50 10 busy (omega arith) busy-Inv

-- A sandbox whose operations never fail.
abbrev calm : Sandbox ℕ ℕ
calm = record {
  destroy = λ _ s. s;
  pause = λ s. (s, none);
  unpause = λ s. (s, none);
  fork = λ _ s. (s, none);
  child_exit = λ _ s. s;
}

watches_example :
    let (start, first, _) =
      start_notifying_listeners (3 ∷ []) (new_safe_sandbox {S = ℕ} {E = ℕ} 0) in
    let (end, later) = run calm (forks 8 ∷ pauses ∷ []) start in
    (e : Evictor) × (update_state (tagged 6 (heard 3 (first ++ later))) new_sock_evictor ≡ some e)
    × (e.priority 6 ≡ 2)
    × Inv e
unfolding run step start_notifying_listeners new_safe_sandbox event notify
watches_example = watches calm 3 6 0 (3 ∷ []) (forks 8 ∷ pauses ∷ []) refl (omega arith)
