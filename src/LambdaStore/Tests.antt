-- ===== src/LambdaStore/Tests.antt =====
-- A store that holds function 1 with settings 7, cached, and function 2, not cached.
use open_lambda.Prelude.{
  ℕ, ◌≡◌, ◌⊎◌, refl, inl, Bool, true, [], ◌∷◌, Option, none, some, if◌then◌else◌, ◌==◌,
}
use open_lambda.LambdaStore.{
  Store, answers, blocks, get_or_create_entry, load_config_and_register, get_config,
}
use open_lambda.LambdaStore.Configs.{Stored, LeavesEntry, get_config_uncached}

abbrev registers : ℕ → ℕ → Bool
registers f cfg = true

abbrev bucket : ℕ → Option (Option ℕ)
bucket f = if f == 3 then none else some (some 7)

abbrev store : Store
store = record { lambdas = (1, some 7) ∷ []; bucket = bucket; pending = [] }

get-cached : get_config registers 1 store ≡ answers true (some 7) store
unfolding get_config get_or_create_entry
get-cached = refl

get-stored : get_config registers 2 store ≡ blocks
unfolding get_config get_or_create_entry load_config_and_register
get-stored = refl

get_config_uncached_example :
    (Stored 2 store × (get_config registers 2 store ≡ blocks))
    ⊎ LeavesEntry 2 store (get_config registers 2 store)
get_config_uncached_example = get_config_uncached registers 2 store (inl refl)
