-- ===== src/HandlerPuller/Tests.antt =====
-- go/worker/lambda/handlerPuller.go: concrete pulls, and instances of the theorems.
use open_lambda.Prelude.{ℕ, ◌≤◌, ◌≡◌, ◌≢◌, refl, true, List, [], ◌∷◌, none, some, arith, eq_of-some}
use open_lambda.Prelude.Texts.{Text}
use open_lambda.LambdaConfig.{validate_function_name}
use open_lambda.LambdaFunc.Pull.{python}
use open_lambda.HandlerPuller.{
  CacheEntry, code, HandlerPuller, found, Answers, fails, put_cache, pull_from_blob, pull,
  new_handler_puller, Call, pulls, gives_up, reset, state_of, step, run,
}
use open_lambda.HandlerPuller.Fresh.{pull-fresh, pull_removes_old}

-- "f"
abbrev f : Text
f = 102 ∷ []

abbrev at : ℕ → Answers
at v = record {
  mod_time = some v;
  blob = found v;
  tmp_ok = true;
  copy_ok = true;
  mkdir_ok = true;
  tar_ok = true;
}

abbrev once : List Call
once = pulls f (at 3) ∷ []

abbrev new_dir : ℕ
new_dir = 1002

abbrev old_entry : CacheEntry
old_entry = record { version = some 3; path = 1001 }

abbrev after : ℕ → HandlerPuller
after v = state_of (pull f (at v) (run once new_handler_puller))

-- A Python function that could not be set up: the next pull gets a new directory.
abbrev given_up : List Call
given_up = pulls f (at 3) ∷ gives_up python f ∷ []

abbrev again : HandlerPuller
again = state_of (pull f (at 3) (run given_up new_handler_puller))

pull-fresh_example : (w : ℕ) × (again.dirs 1002 ≡ some (code f w)) × (3 ≤ w)
unfolding run step reset pull validate_function_name pull_from_blob put_cache
pull-fresh_example =
    pull-fresh given_up f (at 3) 3 1002 again (omega arith, (tt, tt)) (omega arith) refl refl

pull_removes_old_example :
    ((run once new_handler_puller).dirs 1001 ≢ none)
    × ((after 4).dirs 1001 ≡ none)
    × (new_dir ≢ old_entry.path)
unfolding run step pull validate_function_name pull_from_blob put_cache
pull_removes_old_example =
    pull_removes_old once f (at 4) 4 1002 old_entry (after 4) (omega arith, tt) (omega arith) refl
      refl (λ e. let bad : ⊥ = omega (arith, eq_of-some e) in bad) refl

-- A name that is no name of a function is refused.
slash_refused : pull (47 ∷ []) (at 3) new_handler_puller ≡ fails new_handler_puller
unfolding pull validate_function_name
slash_refused = refl
