-- ===== src/SafeSandbox/Tests.antt =====
-- A sandbox that fails to unpause the second time: test data, and the theorems at concrete inputs.
use open_lambda.Prelude.{
  ℕ, ◌+◌, ◌≡◌, refl, true, List, [], ◌∷◌, ◌++◌, none, some, arith, if◌then◌else◌, ◌==◌,
}
use open_lambda.SandboxApi.{EventType, Sandbox, killed_while}
use open_lambda.SafeSandbox.{
  SafeSandbox, Call, pauses, unpauses, forks, child_exits, new_safe_sandbox, notify, event,
  start_notifying_listeners, step, run,
}
use open_lambda.SafeSandbox.Lifecycle.{advance_all, unborn, gone, heard, run_lifecycle}

-- The state counts the calls of `Unpause`.
abbrev pub flaky : Sandbox ℕ ℕ
flaky = record {
  destroy = λ _ s. s;
  pause = λ s. (s, none);
  unpause = λ s. (s + 1, if s == 1 then some 7 else none);
  fork = λ _ s. (s, none);
  child_exit = λ _ s. s;
}

abbrev pub calls : List Call
calls = pauses ∷ pauses ∷ forks 5 ∷ unpauses ∷ pauses ∷ child_exits 5 ∷ unpauses ∷ pauses ∷ []

heard-calls :
    let (sb, first, _) = start_notifying_listeners (3 ∷ []) (new_safe_sandbox {S = ℕ} {E = ℕ} 0) in
    let (sb', later) = run flaky calls sb in
    heard 3 (first ++ later)
    ≡ EventType.create ∷ EventType.pause ∷ EventType.fork ∷ EventType.unpause ∷ EventType.pause
      ∷ EventType.child_exit ∷ EventType.unpause ∷ EventType.destroy ∷ []
unfolding run step start_notifying_listeners new_safe_sandbox event notify
heard-calls = refl

run_lifecycle_example :
    let (sb, first, _) = start_notifying_listeners (3 ∷ []) (new_safe_sandbox {S = ℕ} {E = ℕ} 0) in
    let (sb', later) = run flaky calls sb in
    advance_all unborn (heard 3 (first ++ later)) ≡ some gone
unfolding run step start_notifying_listeners new_safe_sandbox event notify
run_lifecycle_example = run_lifecycle flaky 3 0 (3 ∷ []) calls refl (omega arith)

abbrev killed : SafeSandbox ℕ ℕ
killed = record {
  inner = 2;
  paused = true;
  dead = some (killed_while "no longer wanted" true);
  event_handlers = 3 ∷ [];
}

abbrev worn : SafeSandbox ℕ ℕ
worn = record { inner = 1; paused = true; dead = none; event_handlers = 3 ∷ [] }
