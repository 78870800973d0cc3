-- ===== src/PackagePuller/Tests.antt =====
-- Four packages: `app` needs `Lib_x` and `util`, and both of these need `core`, which needs `util`.
use open_lambda.Prelude.Texts.{same_text}
use open_lambda.Prelude.{
  ◌≡◌, refl, Bool, true, List, [], ◌∷◌, ◌++◌, Option, some, inl, inr, if◌then◌else◌, All, sym,
  eq_of-some, Bool-cases,
}
use open_lambda.PackagePuller.{
  Name, World, Puller, normalize_pkg, run_installer, sandbox_install, get_or_install,
  get_normalized, get_pkg, installed, install_loop, install_recursive, add_all,
}
use open_lambda.PackagePuller.Names.{normalize_pkg_idempotent}
use open_lambda.PackagePuller.Fuel.{Closed, Returns, install_recursive-Returns}
use open_lambda.PackagePuller.Dirs.{LeavesDirs, install_recursive-LeavesDirs}
use open_lambda.PackagePuller.Pushing.{Unseen}
use open_lambda.PackagePuller.Closure.{Settled, Wanted, install_recursive_closure}

abbrev app : Name
app = 97 ∷ 112 ∷ 112 ∷ []

abbrev lib_x : Name
lib_x = 76 ∷ 105 ∷ 98 ∷ 95 ∷ 120 ∷ []

abbrev util : Name
util = 117 ∷ 116 ∷ 105 ∷ 108 ∷ []

abbrev core : Name
core = 99 ∷ 111 ∷ 114 ∷ 101 ∷ []

-- `app==1`
abbrev app_1 : Name
app_1 = app ++ 61 ∷ 61 ∷ 49 ∷ []

abbrev pip : Name → Bool → Option (List Name)
pip n already =
    if same_text n app_1
    then some (lib_x ∷ util ∷ [])
    else (if same_text n util
        then some (core ∷ [])
        else (if same_text n core then some (util ∷ []) else some (core ∷ [])))

abbrev world : World
world = record { mkdir_ok = λ n. true; create_ok = λ n. true; pip = pip }

abbrev empty : Puller
empty = record { packages = []; dirs = [] }

normalize-lib_x : normalize_pkg lib_x ≡ 108 ∷ 105 ∷ 98 ∷ 45 ∷ 120 ∷ []
unfolding normalize_pkg
normalize-lib_x = refl

normalize_pkg_idempotent_example : normalize_pkg (normalize_pkg lib_x) ≡ normalize_pkg lib_x
normalize_pkg_idempotent_example = normalize_pkg_idempotent lib_x

abbrev names : List Name
names = (108 ∷ 105 ∷ 98 ∷ 45 ∷ 120 ∷ []) ∷ util ∷ core ∷ []

abbrev after : Puller
after = record {
  packages =
      (core, util ∷ [])
      ∷ (util, core ∷ [])
      ∷ (108 ∷ 105 ∷ 98 ∷ 45 ∷ 120 ∷ [], core ∷ [])
      ∷ (app_1, (108 ∷ 105 ∷ 98 ∷ 45 ∷ 120 ∷ []) ∷ util ∷ [])
      ∷ [];
  dirs = core ∷ util ∷ (108 ∷ 105 ∷ 98 ∷ 45 ∷ 120 ∷ []) ∷ app_1 ∷ [];
}

install-app :
    install_recursive world 4 (app_1 ∷ []) empty
    ≡ installed (app_1 ∷ (108 ∷ 105 ∷ 98 ∷ 45 ∷ 120 ∷ []) ∷ util ∷ core ∷ []) after
unfolding install_recursive install_loop get_pkg get_normalized get_or_install sandbox_install
    run_installer normalize_pkg
install-app = refl

pip-Closed : Closed names world
unfolding normalize_pkg
pip-Closed n already deps e = elim (Bool-cases (same_text n app_1)) [
  | inl is_app ↦ let f = rw is_app at e in rw (sym (eq_of-some f)) (refl, (refl, tt))
  | inr not_app ↦ elim (Bool-cases (same_text n util)) [
    | inl is_util ↦ let f = rw (not_app, is_util) at e in rw (sym (eq_of-some f)) (refl, tt)
    | inr not_util ↦ elim (Bool-cases (same_text n core)) [
      | inl is_core ↦
          let f = rw (not_app, not_util, is_core) at e in rw (sym (eq_of-some f)) (refl, tt)
      | inr not_core ↦
          let f = rw (not_app, not_util, not_core) at e in rw (sym (eq_of-some f)) (refl, tt)
    ]
  ]
]

install_recursive-Returns_example : Returns (install_recursive world 4 (app_1 ∷ []) empty)
install_recursive-Returns_example =
    install_recursive-Returns names world (app_1 ∷ []) empty pip-Closed tt

install_recursive_closure_example :
    (more : List Name) × (app_1 ∷ (108 ∷ 105 ∷ 98 ∷ 45 ∷ 120 ∷ []) ∷ util ∷ core ∷ []
      ≡ app_1 ∷ [] ++ more)
    × Unseen more (app ∷ [])
    × All (Settled (add_all more (app ∷ [])) after) (app_1 ∷ [] ++ more)
    × All (Wanted (app_1 ∷ (108 ∷ 105 ∷ 98 ∷ 45 ∷ 120 ∷ []) ∷ util ∷ core ∷ []) after) more
install_recursive_closure_example =
    install_recursive_closure world 4 (app_1 ∷ []) empty after
      (app_1 ∷ (108 ∷ 105 ∷ 98 ∷ 45 ∷ 120 ∷ []) ∷ util ∷ core ∷ []) install-app

install_recursive-LeavesDirs_example : LeavesDirs (install_recursive world 4 (app_1 ∷ []) empty)
install_recursive-LeavesDirs_example = install_recursive-LeavesDirs world 4 (app_1 ∷ []) empty tt

-- Asked for `Util` and `core`, the puller lists `util` a second time.
install-twice :
    install_recursive world 5 ((85 ∷ 116 ∷ 105 ∷ 108 ∷ []) ∷ core ∷ []) empty
    ≡ installed
        ((85 ∷ 116 ∷ 105 ∷ 108 ∷ []) ∷ core ∷ util ∷ [])
        (record { packages = (core, util ∷ []) ∷ (util, core ∷ []) ∷ []; dirs = core ∷ util ∷ [] })
unfolding install_recursive install_loop get_pkg get_normalized get_or_install sandbox_install
    run_installer normalize_pkg
install-twice = refl
