-- ===== src/LambdaFunc/Pull.antt =====
-- `pullHandlerIfStale` of go/worker/lambda/lambdaFunction.go. What it calls is a parameter: the
-- handler puller, `parseMeta`, the package puller, and the file system for the `.env` file.
use open_lambda.Prelude.{
  ℕ, ◌-◌, ◌*◌, Bool, true, false, List, [], ◌∷◌, ◌++◌, Option, none, some, if◌then◌else◌, ltb, ◌==◌,
}

pub data Runtime : Type 0 where
  python native : Runtime

-- `FunctionMeta`, as far as the task reads it.
pub record Meta : Type 0 where
  pub runtime : Runtime
  pub installs : List ℕ
  pub environment : List (ℕ × ℕ)
  pub methods : List ℕ
  pub reuse_sandbox : Bool

pub record Func : Type 0 where
  pub last_pull : Option ℕ
  pub code_dir : Option ℕ
  pub meta : Option Meta

-- The answers of what the function calls at one time. `none` is an error.
pub record Env : Type 0 where
  pub now : ℕ
  pub registry_cache_ms : ℕ
  pub pull : Option ℕ
  pub parse_meta : ℕ → Option Meta
  pub get_pkg : ℕ → Bool
  pub write_env : Bool

-- What it does to the rest of the worker.
pub data Effect : Type 0 where
  asked : Effect  -- a call of `HandlerPuller.Pull`
  traced : ℕ → Effect  -- `DepTracer.TraceFunction`
  removed : ℕ → Effect  -- `os.RemoveAll`
  reset : Effect  -- `HandlerPuller.Reset`

-- The new state, the effects, and whether it succeeded.
abbrev pub Outcome : Type 0
Outcome = Func × List Effect × Bool

-- `f.lastPull != nil && now.Sub(*f.lastPull) < cacheNs`
unfoldable pub is_fresh : Func → Env → Bool
is_fresh f env = elim f.last_pull [
  | none ↦ false
  | some last ↦ ltb (env.now - last) (env.registry_cache_ms * 1000000)
]

-- The loop over the packages of a Python function: false at the first that cannot be installed.
abbrev pub get_pkgs : (ℕ → Bool) → List ℕ → Bool
get_pkgs get [] = true
get_pkgs get (pkg ∷ pkgs) = if get pkg then get_pkgs get pkgs else false

-- The deferred clean-up after a failure.
unfoldable pub clean_up : ℕ → Runtime → List Effect
clean_up dir python = removed dir ∷ reset ∷ []
clean_up dir native = removed dir ∷ []

abbrev pub is_nil : List (ℕ × ℕ) → Bool
is_nil [] = true
is_nil (x ∷ xs) = false

-- The `.env` file, written if there is an entry; then the switch to the new code.
unfoldable pub finish : ℕ → Meta → List Effect → Func → Env → Outcome
finish dir meta effects f env =
    if is_nil meta.environment
    then (record { last_pull = some env.now; code_dir = some dir; meta = some meta }, effects, true)
    else (if env.write_env
        then (
          record { last_pull = some env.now; code_dir = some dir; meta = some meta },
          effects,
          true,
        )
        else (f, effects ++ clean_up dir meta.runtime, false))

unfoldable pub install : Runtime → ℕ → Meta → Func → Env → Outcome
install python dir meta f env =
    if get_pkgs env.get_pkg meta.installs
    then finish dir meta (asked ∷ traced dir ∷ []) f env
    else (f, asked ∷ clean_up dir python, false)
install native dir meta f env = finish dir meta (asked ∷ []) f env

-- The part that runs for a directory that differs from the current one.
unfoldable pub switch_code : ℕ → Func → Env → Outcome
switch_code dir f env = elim (env.parse_meta dir) [
  | none ↦ (f, asked ∷ [], false)
  | some meta ↦ install meta.runtime dir meta f env
]

abbrev pub same_dir : Option ℕ → ℕ → Bool
same_dir none dir = false
same_dir (some d) dir = d == dir

unfoldable pub pull_handler_if_stale : Func → Env → Outcome
pull_handler_if_stale f env = if is_fresh f env then (f, [], true) else (elim env.pull [
  | none ↦ (f, asked ∷ [], false)
  | some dir ↦ if same_dir f.code_dir dir then (f, asked ∷ [], true) else switch_code dir f env
])
