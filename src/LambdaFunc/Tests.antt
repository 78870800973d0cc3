-- ===== src/LambdaFunc/Tests.antt =====
-- A Python function whose code changes from directory 7 to directory 8, and the task that serves it.
use open_lambda.Prelude.{ℕ, ◌≡◌, ◌⊎◌, inr, refl, Bool, true, [], ◌∷◌, some, arith, length}
use open_lambda.LambdaFunc.Pull.{
  python, Meta, Func, Env, is_fresh, switch_code, install, finish, pull_handler_if_stale,
}
use open_lambda.LambdaFunc.Task.{
  Task, Instance, Event, request, refused, method_not_allowed, desired_instances, on_request,
  then_scale, on_event, checked, turn,
}
use open_lambda.LambdaFunc.Scaling.{goal}
use open_lambda.LambdaFunc.Settling.{wakes, wakes_settles}
use open_lambda.LambdaFunc.Serving.{turn-Accounts, Accounts, asks}
use open_lambda.LambdaFunc.Codes.{Current}
use open_lambda.LambdaFunc.Retiring.{turn-Current, Barred}

abbrev meta : Meta
meta = record {
  runtime = python;
  installs = 3 ∷ [];
  environment = (1, 2) ∷ [];
  methods = 5 ∷ [];
  reuse_sandbox = true;
}

abbrev func : Func
func = record { last_pull = some 10; code_dir = some 7; meta = some meta }

-- The puller gives `dir`, and the `.env` file can be written if `ok`.
abbrev env_with : ℕ → Bool → Env
env_with dir ok = record {
  now = 9_000_000;
  registry_cache_ms = 5;
  pull = some dir;
  parse_meta = λ d. some meta;
  get_pkg = λ pkg. true;
  write_env = ok;
}

abbrev instance_of : ℕ → ℕ → Instance
instance_of id dir = record { id = id; code_dir = dir }

-- One instance, six requests outstanding that take 20 ms: the goal is six instances.
abbrev busy : Task
busy = record {
  func = func;
  instances = instance_of 0 7 ∷ [];
  next_id = 1;
  outstanding_reqs = 6;
  exec_ms = record { size = 10; nums = 20 ∷ []; sum = 20; avg = 20 };
  last_scaling = some 1_000;
  timer = some 100_001_000;
}

wakes_settles_example : (s' : Task) × (wakes 5 busy ≡ some s') × (length s'.instances ≡ goal busy)
unfolding desired_instances
wakes_settles_example =
    wakes_settles 5 7 busy refl refl (inr (100_001_000, refl, refl, omega arith))

-- A turn that reads a request for method 6, which is not allowed, when the code has changed.
abbrev barred_task : Task
barred_task = record busy { func = record func { last_pull = some 9_000_000; code_dir = some 8 } }

abbrev barred_request : Event
barred_request = request 6 (env_with 8 true) true

barred_turn :
    turn barred_request 9_000_000 busy ≡ some (barred_task, refused method_not_allowed ∷ [])
unfolding turn then_scale on_event on_request checked pull_handler_if_stale is_fresh switch_code
    install finish
barred_turn = refl

turn-Accounts_example :
    Accounts (asks barred_request) busy barred_task (refused method_not_allowed ∷ [])
turn-Accounts_example =
    turn-Accounts barred_request 9_000_000 busy barred_task (refused method_not_allowed ∷ []) tt
      barred_turn

turn-Current_example : Current barred_task ⊎ Barred (refused method_not_allowed ∷ [])
turn-Current_example =
    turn-Current barred_request 9_000_000 busy barred_task (refused method_not_allowed ∷ [])
      (refl, tt) barred_turn
