-- ===== src/LambdaStore.antt =====
-- go/boss/lambdastore/store.go: the functions that are registered, with the settings that are cached
-- for them. Functions and settings are numbers. What the bucket holds for a function is its tarball:
-- `some none` is one whose settings cannot be read. Whether the triggers of a function can be
-- registered, and whether an upload succeeds, are arguments. The lock of an entry is not reentrant: a
-- call that takes it while it holds it blocks for ever.
pub mod Configs
mod Tests
use open_lambda.Prelude.{
  ℕ, Bool, true, false, List, [], ◌∷◌, Option, none, some, if◌then◌else◌, ◌==◌,
}
use open_lambda.Prelude.Maps.{update}

-- `pending` are deletions that run in the background.
pub record Store : Type 0 where
  pub lambdas : List (ℕ × Option ℕ)
  pub bucket : ℕ → Option (Option ℕ)
  pub pending : List ℕ

-- An answer with whether it is no error, and with settings.
pub data Result : Type 0 where
  answers : Bool → Option ℕ → Store → Result
  blocks : Result

abbrev pub find_entry : ℕ → List (ℕ × Option ℕ) → Option (Option ℕ)
find_entry f [] = none
find_entry f ((g, c) ∷ es) = if g == f then some c else find_entry f es

abbrev pub set_config : ℕ → ℕ → List (ℕ × Option ℕ) → List (ℕ × Option ℕ)
set_config f cfg [] = []
set_config f cfg ((g, c) ∷ es) =
    let rest = set_config f cfg es in if g == f then (g, some cfg) ∷ es else (g, c) ∷ rest

abbrev pub drop_entry : ℕ → List (ℕ × Option ℕ) → List (ℕ × Option ℕ)
drop_entry f [] = []
drop_entry f ((g, c) ∷ es) = let rest = drop_entry f es in if g == f then es else (g, c) ∷ rest

abbrev pub create_entry : ℕ → Store → Option (Option ℕ) → Store
create_entry f s none = record s { lambdas = (f, none) ∷ s.lambdas }
create_entry f s (some c) = s

unfoldable pub get_or_create_entry : ℕ → Store → Store
get_or_create_entry f s = create_entry f s (find_entry f s.lambdas)

abbrev pub cache : ℕ → ℕ → Store → Store
cache f cfg s = record s { lambdas = set_config f cfg s.lambdas }

-- `loadConfigAndRegister`; the first argument is whether its caller holds the lock of the entry.
abbrev pub load_tarball : Bool → (ℕ → ℕ → Bool) → ℕ → Store → Option (Option ℕ) → Result
load_tarball held registers f s none = answers false none s
load_tarball held registers f s (some none) = answers false none s
load_tarball held registers f s (some (some cfg)) =
    if held then blocks else answers (registers f cfg) none (cache f cfg (get_or_create_entry f s))

unfoldable pub load_config_and_register : Bool → (ℕ → ℕ → Bool) → ℕ → Store → Result
load_config_and_register held registers f s = load_tarball held registers f s (s.bucket f)

abbrev pub cached : ℕ → Store → Option ℕ
cached f s = elim (find_entry f s.lambdas) [ none ↦ none | some c ↦ c ]

-- The end of `GetConfig`, after the settings were loaded.
abbrev pub loaded : ℕ → Result → Result
loaded f blocks = blocks
loaded f (answers false c s) = answers false none s
loaded f (answers true c s) = answers true (cached f s) s

abbrev pub answer_cached : (ℕ → ℕ → Bool) → ℕ → Store → Option ℕ → Result
answer_cached registers f s (some cfg) = answers true (some cfg) s
answer_cached registers f s none = loaded f (load_config_and_register true registers f s)

unfoldable pub get_config : (ℕ → ℕ → Bool) → ℕ → Store → Result
get_config registers f s =
    let s' = get_or_create_entry f s in answer_cached registers f s' (cached f s')

-- An upload: its settings, if they can be read, and whether it reaches the bucket.
unfoldable pub add_to_registry : (ℕ → ℕ → Bool) → Bool → ℕ → Option ℕ → Store → Result
add_to_registry registers stored f none s = answers false none (get_or_create_entry f s)
add_to_registry registers stored f (some cfg) s =
    let s' = get_or_create_entry f s in
    if stored
    then answers (registers f cfg) none
        (cache f cfg (record s' { bucket = update s'.bucket f (some (some cfg)) }))
    else answers false none s'

abbrev pub remove_entry : ℕ → Store → Option (Option ℕ) → Result
remove_entry f s none = answers false none s
remove_entry f s (some c) =
    answers true none (record s { lambdas = drop_entry f s.lambdas; pending = f ∷ s.pending })

unfoldable pub remove_from_registry : ℕ → Store → Result
remove_from_registry f s = remove_entry f s (find_entry f s.lambdas)

-- The deletion in the background that was started last.
abbrev pub delete_blob : List ℕ → Store → Store
delete_blob [] s = s
delete_blob (f ∷ fs) s = record s { bucket = update s.bucket f none; pending = fs }
