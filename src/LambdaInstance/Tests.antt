-- ===== src/LambdaInstance/Tests.antt =====
-- Runs of the task of an instance.
use open_lambda.Prelude.{
  ℕ, ◌≡◌, refl, Bool, true, false, List, [], ◌∷◌, ◌++◌, Option, none, some, inl,
}
use open_lambda.LambdaInstance.{
  Settings, State, waiting, stopped, Input, Effect, took, done, created, unpaused, paused,
  destroyed, acknowledged, kill, create, start_new, make_ready, after_request, next_round, serve,
  step, run,
}
use open_lambda.LambdaInstance.Requests.{current, taken, replied, Keeps, run_replies}
use open_lambda.LambdaInstance.Sandboxes.{Reuses, awake, awake_after, run_sandboxes}

abbrev reusing : Settings
reusing = record { reuse_sandbox = true; has_zygotes = false }

abbrev single_use : Settings
single_use = record { reuse_sandbox = false; has_zygotes = true }

abbrev input : Option ℕ → Option ℕ → Bool → Input
input wake next killed = record {
  wake = wake;
  unpause_ok = true;
  from_zygote = none;
  from_pool = some 7;
  trip_ok = true;
  killed = killed;
  next = next;
  pause_ok = true;
}

-- Two requests in a row, a pause, a third one, and a kill.
abbrev busy : List Input
busy =
    input (some 1) none false
    ∷ input none (some 2) false
    ∷ input none none false
    ∷ input (some 3) none false
    ∷ input none none true
    ∷ []

abbrev busy_effects : List Effect
busy_effects =
    took 1
    ∷ created 7
    ∷ done 1
    ∷ took 2
    ∷ done 2
    ∷ paused 7
    ∷ took 3
    ∷ unpaused 7
    ∷ done 3
    ∷ destroyed 7
    ∷ acknowledged
    ∷ []

run-busy : run reusing busy (waiting none) ≡ some (stopped, busy_effects)
unfolding run step make_ready create start_new serve after_request next_round kill
run-busy = refl

busy-Keeps : Keeps reusing busy (waiting none)
unfolding step make_ready create start_new serve after_request next_round kill
busy-Keeps = (tt, (inl refl, (inl refl, (tt, (inl refl, tt)))))

run_replies_example : taken busy_effects ≡ replied busy_effects ++ current stopped
run_replies_example =
    run_replies reusing busy (waiting none) stopped busy_effects busy-Keeps run-busy

run_sandboxes_example :
    (t : State) × (es : List Effect) × (run reusing busy (waiting none) ≡ some (t, es))
    × Reuses reusing t
    × (awake_after none es ≡ awake t)
run_sandboxes_example = run_sandboxes reusing busy (waiting none) tt

-- After the lost request 2, request 3 is served in a sandbox of its own.
run-later :
    run single_use (input (some 3) none false ∷ input none none false ∷ []) (waiting none)
    ≡ some (waiting none, took 3 ∷ created 7 ∷ done 3 ∷ destroyed 7 ∷ [])
unfolding run step make_ready create start_new serve after_request next_round kill
run-later = refl
