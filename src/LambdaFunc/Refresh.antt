-- ===== src/LambdaFunc/Refresh.antt =====
-- When a lambda function changes its code (`pullHandlerIfStale` of go/worker/lambda/lambdaFunction.go).
use open_lambda.Prelude.{
  ℕ, ◌≤◌, ◌≡◌, refl, ◌⊎◌, inl, inr, true, false, List, [], ◌∷◌, ◌++◌, none, some, arith,
  Option-cases, Bool-cases,
}
use open_lambda.LambdaFunc.Pull.{
  Runtime, python, native, Meta, Func, Env, Effect, asked, traced, is_fresh, get_pkgs, clean_up,
  is_nil, finish, install, switch_code, same_dir, pull_handler_if_stale,
}

finish_kept :
    (dir : ℕ) (meta : Meta) (effects : List Effect) (f : Func) (env : Env)
    → (finish dir meta effects f env).2 ≡ false
    → ((finish dir meta effects f env).0 ≡ f)
      × ((finish dir meta effects f env).1 ≡ effects ++ clean_up dir meta.runtime)
unfolding finish
finish_kept dir meta effects f env h = ground arith

install_kept :
    (r : Runtime) (dir : ℕ) (meta : Meta) (f : Func) (env : Env)
    → meta.runtime ≡ r
    → (install r dir meta f env).2 ≡ false
    → ((install r dir meta f env).0 ≡ f)
      × (before : List Effect) × ((install r dir meta f env).1
          ≡ before ++ clean_up dir meta.runtime)
unfolding install
install_kept native dir meta f env e h =
    let (kept, effects) = finish_kept dir meta (asked ∷ []) f env h in (kept, asked ∷ [], effects)
install_kept python dir meta f env e h = elim (Bool-cases (get_pkgs env.get_pkg meta.installs)) [
  | inl got ↦
      let (kept, effects) =
        finish_kept dir meta (asked ∷ traced dir ∷ []) f env (rw (got, install) at h) in
      (rw (got, install) kept, asked ∷ traced dir ∷ [], rw (got, install) effects)
  | inr missing ↦ (rw (missing, install) refl, asked ∷ [], rw (missing, install, e) refl)
]

module _ (f : Func) (env : Env) where
  pull_fresh : is_fresh f env ≡ true → pull_handler_if_stale f env ≡ (f, [], true)
  unfolding pull_handler_if_stale
  pull_fresh h = rw h

  pull_none :
      is_fresh f env ≡ false
      → env.pull ≡ none
      → pull_handler_if_stale f env ≡ (f, asked ∷ [], false)
  unfolding pull_handler_if_stale
  pull_none h p = rw h (ground arith)

  pull_same :
      (dir : ℕ)
      → is_fresh f env ≡ false
      → env.pull ≡ some dir
      → same_dir f.code_dir dir ≡ true
      → pull_handler_if_stale f env ≡ (f, asked ∷ [], true)
  unfolding pull_handler_if_stale
  pull_same dir h p s = rw h (ground arith)

  pull_switch :
      (dir : ℕ)
      → is_fresh f env ≡ false
      → env.pull ≡ some dir
      → same_dir f.code_dir dir ≡ false
      → pull_handler_if_stale f env ≡ switch_code dir f env
  unfolding pull_handler_if_stale
  pull_switch dir h p s = rw h (ground arith)

  -- What a check of the code comes to.
  pub data Check : Type 0 where
    fresh : is_fresh f env ≡ true → Check
    no_answer : is_fresh f env ≡ false → env.pull ≡ none → Check
    unchanged :
        (dir : ℕ)
        → is_fresh f env ≡ false
        → env.pull ≡ some dir
        → same_dir f.code_dir dir ≡ true
        → Check
    changed :
        (dir : ℕ)
        → is_fresh f env ≡ false
        → env.pull ≡ some dir
        → same_dir f.code_dir dir ≡ false
        → Check

  check : Check
  check = elim (Bool-cases (is_fresh f env)) [
    | inl young ↦ fresh young
    | inr stale ↦ elim (Option-cases env.pull) [
      | inl failed ↦ no_answer stale failed
      | inr (dir, pulled) ↦ elim (Bool-cases (same_dir f.code_dir dir)) [
        | inl same ↦ unchanged dir stale pulled same
        | inr other ↦ changed dir stale pulled other
      ]
    ]
  ]

switch_code_failure :
    (dir : ℕ) (f : Func) (env : Env)
    → (switch_code dir f env).2 ≡ false
    → ((switch_code dir f env).0 ≡ f)
      × ((env.parse_meta dir ≡ none)
          ⊎ ((meta : Meta) × (before : List Effect) × (env.parse_meta dir ≡ some meta)
              × ((switch_code dir f env).1 ≡ before ++ clean_up dir meta.runtime)))
unfolding switch_code
switch_code_failure dir f env h = elim (Option-cases (env.parse_meta dir)) [
  | inl bad ↦ (rw (bad, switch_code) refl, inl bad)
  | inr (meta, good) ↦
      let (kept, before, effects) =
        install_kept meta.runtime dir meta f env refl (rw (good, switch_code) at h) in
      (rw (good, switch_code) kept, inr (meta, before, good, rw (good, switch_code) effects))
]

-- A pull that fails leaves the function as it was, its code, its settings and its pull time, so that
-- the next request checks again; and if the new code had been read, the last effects are those that
-- remove it.
pub pull_failure :
    (f : Func) (env : Env)
    → (pull_handler_if_stale f env).2 ≡ false
    → ((pull_handler_if_stale f env).0 ≡ f)
      × ((env.pull ≡ none)
          ⊎ ((dir : ℕ) × (env.pull ≡ some dir)
              × ((env.parse_meta dir ≡ none)
                  ⊎ ((meta : Meta) × (before : List Effect) × (env.parse_meta dir ≡ some meta)
                      × ((pull_handler_if_stale f env).1 ≡ before ++ clean_up dir meta.runtime)))))
pull_failure f env h = elim (check f env) [
  | fresh a ↦ cc (rw (pull_fresh f env a) at h)
  | no_answer a b ↦ rw (pull_none f env a b) (refl, inl b)
  | unchanged dir a b c ↦ cc (rw (pull_same f env dir a b c) at h)
  | changed dir a b c ↦
      let (kept, why) = switch_code_failure dir f env (rw (pull_switch f env dir a b c) at h) in
      rw (pull_switch f env dir a b c) (kept, inr (dir, b, why))
]

finish_success :
    (dir : ℕ) (meta : Meta) (effects : List Effect) (f : Func) (env : Env)
    → (finish dir meta effects f env).2 ≡ true
    → ((finish dir meta effects f env).0.code_dir ≡ some dir)
      × ((finish dir meta effects f env).0.last_pull ≡ some env.now)
unfolding finish
finish_success dir meta effects f env h = ground arith

install_success :
    (r : Runtime) (dir : ℕ) (meta : Meta) (f : Func) (env : Env)
    → (install r dir meta f env).2 ≡ true
    → ((install r dir meta f env).0.code_dir ≡ some dir)
      × ((install r dir meta f env).0.last_pull ≡ some env.now)
unfolding install
install_success native dir meta f env h = finish_success dir meta _ f env h
install_success python dir meta f env h = elim (Bool-cases (get_pkgs env.get_pkg meta.installs)) [
  | inl got ↦ rw (got, install) (finish_success dir meta _ f env (rw (got, install) at h))
  | inr missing ↦ cc (rw (missing, install) at h)
]

switch_code_success :
    (dir : ℕ) (f : Func) (env : Env)
    → (switch_code dir f env).2 ≡ true
    → ((switch_code dir f env).0.code_dir ≡ some dir)
      × ((switch_code dir f env).0.last_pull ≡ some env.now)
unfolding switch_code
switch_code_success dir f env h = elim (Option-cases (env.parse_meta dir)) [
  | inl bad ↦ cc (rw (bad, switch_code) at h)
  | inr (meta, good) ↦
      rw (good, switch_code)
        (install_success meta.runtime dir meta f env (rw (good, switch_code) at h))
]

-- A pull that succeeds finds the code fresh and asks nobody, or finds that the puller gives the
-- directory that the function has and changes nothing, or leaves the function with the new directory
-- and the present as its pull time.
pub pull_success :
    (f : Func) (env : Env)
    → (pull_handler_if_stale f env).2 ≡ true
    → ((is_fresh f env ≡ true) × (pull_handler_if_stale f env ≡ (f, [], true)))
      ⊎ ((dir : ℕ) × (env.pull ≡ some dir)
          × (((same_dir f.code_dir dir ≡ true) × ((pull_handler_if_stale f env).0 ≡ f))
              ⊎ (((pull_handler_if_stale f env).0.code_dir ≡ some dir)
                  × ((pull_handler_if_stale f env).0.last_pull ≡ some env.now))))
pull_success f env h = elim (check f env) [
  | fresh a ↦ inl (a, pull_fresh f env a)
  | no_answer a b ↦ cc (rw (pull_none f env a b) at h)
  | unchanged dir a b c ↦ inr (dir, b, inl (c, rw (pull_same f env dir a b c) refl))
  | changed dir a b c ↦ inr (
    dir,
    b,
    inr (
        rw (pull_switch f env dir a b c)
          (switch_code_success dir f env (rw (pull_switch f env dir a b c) at h))),
  )
]

is_fresh-later :
    (f : Func) (env later : Env)
    → is_fresh f env ≡ false
    → env.now ≤ later.now
    → later.registry_cache_ms ≡ env.registry_cache_ms
    → is_fresh f later ≡ false
unfolding is_fresh
is_fresh-later f env later h time ms = ground arith

abbrev Asks : List Effect → Type 0
Asks effects = (rest : List Effect) × (effects ≡ asked ∷ rest)

finish-Asks :
    (dir : ℕ) (meta : Meta) (rest : List Effect) (f : Func) (env : Env)
    → Asks (finish dir meta (asked ∷ rest) f env).1
unfolding finish
finish-Asks dir meta rest f env = elim (Bool-cases (is_nil meta.environment)) [
  | inl a ↦ (rest, rw a refl)
  | inr a ↦ elim (Bool-cases env.write_env) [
    | inl b ↦ (rest, rw (a, b) refl)
    | inr b ↦ (rest ++ clean_up dir meta.runtime, rw (a, b) refl)
  ]
]

install-Asks :
    (r : Runtime) (dir : ℕ) (meta : Meta) (f : Func) (env : Env) → Asks (install r dir meta f env).1
unfolding install
install-Asks native dir meta f env = finish-Asks dir meta [] f env
install-Asks python dir meta f env = elim (Bool-cases (get_pkgs env.get_pkg meta.installs)) [
  | inl got ↦ rw (got, install) (finish-Asks dir meta (traced dir ∷ []) f env)
  | inr missing ↦ (clean_up dir python, rw (missing, install) refl)
]

switch_code-Asks : (dir : ℕ) (f : Func) (env : Env) → Asks (switch_code dir f env).1
unfolding switch_code
switch_code-Asks dir f env = elim (Option-cases (env.parse_meta dir)) [
  | inl bad ↦ ([], rw (bad, switch_code) refl)
  | inr (meta, good) ↦ rw (good, switch_code) (install-Asks meta.runtime dir meta f env)
]

pull-Asks : (f : Func) (env : Env) → is_fresh f env ≡ false → Asks (pull_handler_if_stale f env).1
pull-Asks f env h = elim (check f env) [
  | fresh a ↦ cc
  | no_answer a b ↦ ([], rw (pull_none f env a b) refl)
  | unchanged dir a b c ↦ ([], rw (pull_same f env dir a b c) refl)
  | changed dir a b c ↦ rw (pull_switch f env dir a b c) (switch_code-Asks dir f env)
]

-- Once code that has not changed has grown stale, it stays stale: the check that finds the same
-- directory does not renew the pull time, so that every later request asks the puller again.
pub unchanged_stays_stale :
    (f : Func) (env later : Env) (dir : ℕ)
    → is_fresh f env ≡ false
    → env.pull ≡ some dir
    → f.code_dir ≡ some dir
    → env.now ≤ later.now
    → later.registry_cache_ms ≡ env.registry_cache_ms
    → (rest : List Effect) × ((pull_handler_if_stale (pull_handler_if_stale f env).0 later).1
        ≡ asked ∷ rest)
unchanged_stays_stale f env later dir stale pulled same time ms =
    rw (pull_same f env dir stale pulled (ground arith))
      (pull-Asks f later (is_fresh-later f env later stale time ms))
