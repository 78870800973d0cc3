-- ===== src/Storage/Tests.antt =====
-- go/common/storage.go: concrete makers, and instances of the theorems.
use open_lambda.Prelude.{ℕ, ◌≡◌, refl, true, false, List, [], ◌∷◌}
use open_lambda.Storage.{DirMaker, store_private, new_dir_maker}

abbrev code : DirMaker
code = record { prefix = 99 ∷ []; mode = store_private }

abbrev first : ℕ
first = 1000

abbrev name : List ℕ
name = 120 ∷ []

-- A bind mount that cannot be made private is left behind.
mount_left :
    (new_dir_maker
      (record { removes = true; makes = true; mounts = true; makes_private = false })
      (119 ∷ [])
      (99 ∷ [])
      store_private).1
    ≡ true
unfolding new_dir_maker
mount_left = refl
