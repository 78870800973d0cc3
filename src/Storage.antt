-- ===== src/Storage.antt =====
-- go/common/storage.go: directories with a number of their own. Whether a call of the file system
-- succeeds is given. `filepath.Join` is on clean paths here.
mod Names
mod Tests
use open_lambda.Prelude.{
  ℕ, suc, Bool, true, false, List, [], ◌∷◌, ◌++◌, Option, none, some, if◌then◌else◌,
}
use open_lambda.Prelude.Texts.{Text, decimal}

pub data StoreMode : Type 0 where
  store_regular : StoreMode
  store_private : StoreMode
  store_memory : StoreMode

pub record DirMaker : Type 0 where
  pub prefix : Text
  pub mode : StoreMode

-- `RemoveAll`, `MkdirAll`, and the mounts.
pub record Calls : Type 0 where
  pub removes : Bool
  pub makes : Bool
  pub mounts : Bool
  pub makes_private : Bool

abbrev pub join : Text → Text → Text
join dir name = dir ++ 47 ∷ name

-- The maker, or `none` for an error, and whether a file system is mounted at the prefix then.
abbrev pub mounted : Calls → DirMaker → StoreMode → Option DirMaker × Bool
mounted c d store_regular = (some d, false)
mounted c d store_memory = if c.mounts then (some d, true) else (none, false)
mounted c d store_private =
    if c.mounts then (if c.makes_private then (some d, true) else (none, true)) else (none, false)

unfoldable pub new_dir_maker : Calls → Text → Text → StoreMode → Option DirMaker × Bool
new_dir_maker c worker_dir system mode =
    if c.removes
    then (if c.makes
        then mounted c (record { prefix = join worker_dir system; mode = mode }) mode
        else (none, false))
    else (none, false)

abbrev pub dash : Text → Text
dash [] = []
dash (c ∷ cs) = 45 ∷ c ∷ cs

-- The number is the global `nextDirId`.
unfoldable pub get : DirMaker → Text → ℕ → Text × ℕ
get d suffix next_dir_id =
    (join d.prefix (decimal (suc next_dir_id)) ++ dash suffix, suc next_dir_id)

-- `none` is the panic, where the directory cannot be made.
unfoldable pub make : Bool → DirMaker → Text → ℕ → Option (Text × ℕ)
make makes d suffix next_dir_id = if makes then some (get d suffix next_dir_id) else none

-- `none` is the panic; otherwise whether the call returns no error.
unfoldable pub cleanup : Bool → Bool → StoreMode → Option Bool
cleanup unmounts removes store_regular = some removes
cleanup unmounts removes store_private = if unmounts then some removes else none
cleanup unmounts removes store_memory = if unmounts then some removes else none
