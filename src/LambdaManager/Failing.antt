-- ===== src/LambdaManager/Failing.antt =====
-- go/worker/lambda/lambdaManager.go: a start that fails, and the instance of the manager after it.
use open_lambda.Prelude.{
  ℕ, zero, suc, ◌+◌, ◌≤◌, ◌<◌, ◌≡◌, refl, sym, ap, ◌∙◌, subst, Bool, true, false, not, List, ◌∷◌,
  none, arith, if◌then◌else◌, ◌==◌, Bool-cases, inl, inr,
}
use open_lambda.LambdaManager.{
  Subsystem, sb_pool, tree, Act, created, LambdaMgr, Outcome, returns, fails, crashes, Conf,
  ImportCacheName, no_cache, one_tree, multitree, unknown, tree_count, make_trees, made_trees,
  no_error, provider_of, new_zygote_provider, with_tracer, with_provider, zygotes_fail, cleaned_up,
  typed_nil, clean_trees, make, new_mgr, with_codes, with_scratches, with_pool, new_lambda_mgr,
  Instance, answers, dies, first_answer, get_lambda_manager_instance,
}
use open_lambda.LambdaManager.Acts.{created_count, cleaned_count, in_order, bit}
use open_lambda.LambdaManager.Ending.{cleanup_nil}
use open_lambda.LambdaManager.Starting.{new_lambda_mgr-Clean, Clean, provider-Kept}

abbrev pub never_asked : Instance
never_asked = record { done = false; lambda_mgr = none }

answer_failed :
    (c : Conf) (m : LambdaMgr)
    → new_lambda_mgr c ≡ fails m
    → get_lambda_manager_instance c never_asked
      ≡ answers none true (record { done = true; lambda_mgr = none })
unfolding get_lambda_manager_instance
answer_failed c m e = ap first_answer e

answer_later :
    (c : Conf) (i : Instance)
    → i.done ≡ true
    → get_lambda_manager_instance c i ≡ answers i.lambda_mgr false i
unfolding get_lambda_manager_instance
answer_later c i e = rw e refl

-- Where making the manager fails with an error, each subsystem that was made has been cleaned up as
-- often, and in order. The first caller of `GetLambdaManagerInstance` gets the error; every later
-- caller gets a nil manager and no error.
pub failed_start :
    (c c' : Conf) (m : LambdaMgr) (s : Subsystem)
    → new_lambda_mgr c ≡ fails m
    → (i : Instance) × (created_count s m.acts ≡ cleaned_count s m.acts)
      × (in_order m.acts ≡ true)
      × (get_lambda_manager_instance c never_asked ≡ answers none true i)
      × (get_lambda_manager_instance c' i ≡ answers none false i)
failed_start c c' m s e =
    let (n, ended) = subst (Clean s 0) e (new_lambda_mgr-Clean s 0 c) in
    let i : Instance = record { done = true; lambda_mgr = none } in
    (i, ended.systems, ended.order, answer_failed c m e, answer_later c' i refl)

-- How many trees the settings ask for.
abbrev pub trees_wanted : ImportCacheName → ℕ → ℕ
trees_wanted no_cache cpus = 0
trees_wanted one_tree cpus = 1
trees_wanted multitree cpus = tree_count cpus
trees_wanted unknown cpus = 0

if-no_error :
    (b : Bool) (x y : Bool × List Act)
    → (b ≡ true → no_error x ≡ false)
    → (b ≡ false → no_error y ≡ false)
    → no_error (if b then x else y) ≡ false
if-no_error true x y h k = h refl
if-no_error false x y h k = k refl

make_trees_fails :
    (tree_fails : ℕ → Bool) (i k j : ℕ) (past : List Act)
    → i ≤ j
    → j < i + k
    → tree_fails j ≡ true
    → no_error (make_trees tree_fails i k past) ≡ false
make_trees_fails tree_fails i zero j past low high bad =
    let none_left : ⊥ = omega (arith, low, high) in elim none_left [ ]
make_trees_fails tree_fails i (suc k) j past low high bad =
    if-no_error (tree_fails i) (false, clean_trees i past)
      (make_trees tree_fails (suc i) k (created (tree i) ∷ past)) (λ failed. refl)
      (λ made. elim (Bool-cases (i == j)) [
        | inl same ↦
            let one : i ≡ j = ground (arith, same) in
            let wrong : true ≡ false = sym bad ∙ ap tree_fails (sym one) ∙ made in
            let no_way : ⊥ = cc in elim no_way [ ]
        | inr other ↦
            make_trees_fails tree_fails (suc i) k j (created (tree i) ∷ past)
              (ground (arith, other, low)) (omega (arith, high)) bad
      ])

provider_of_failed :
    (n : ℕ) (r : Bool × List Act) (m : LambdaMgr)
    → no_error r ≡ false
    → (provider_of n r m).provider ≡ typed_nil
provider_of_failed n (true, past) m e = let bad : ⊥ = cc in elim bad [ ]
provider_of_failed n (false, past) m e = refl

bad_provider :
    (c : Conf) (name : ImportCacheName) (j : ℕ)
    → j < trees_wanted name c.cpus
    → c.tree_fails j ≡ true
    → (no_error (made_trees c name with_tracer.acts) ≡ false)
      × ((new_zygote_provider c name with_tracer).provider ≡ typed_nil)
bad_provider c no_cache j wanted bad = let no_tree : ⊥ = omega (arith, wanted) in elim no_tree [ ]
bad_provider c one_tree j wanted bad =
    let failed =
      make_trees_fails c.tree_fails 0 1 j with_tracer.acts (omega arith) (omega (arith, wanted))
        bad in
    (failed, provider_of_failed 1 (made_trees c one_tree with_tracer.acts) with_tracer failed)
bad_provider c multitree j wanted bad =
    let failed =
      make_trees_fails c.tree_fails 0 (tree_count c.cpus) j with_tracer.acts (omega arith)
        (omega (arith, wanted)) bad in
    (
      failed,
      provider_of_failed (tree_count c.cpus) (made_trees c multitree with_tracer.acts) with_tracer
          failed,
    )
bad_provider c unknown j wanted bad = let no_tree : ⊥ = omega (arith, wanted) in elim no_tree [ ]

provider_of_pool : (n : ℕ) (r : Bool × List Act) → (provider_of n r with_tracer).pool ≡ true
provider_of_pool n (true, past) = refl
provider_of_pool n (false, past) = refl

pool_there :
    (c : Conf) (name : ImportCacheName) → (new_zygote_provider c name with_tracer).pool ≡ true
pool_there c no_cache = refl
pool_there c one_tree = provider_of_pool 1 (made_trees c one_tree with_tracer.acts)
pool_there c multitree =
    provider_of_pool (tree_count c.cpus) (made_trees c multitree with_tracer.acts)
pool_there c unknown = refl

made : (b : Bool) (m : LambdaMgr) (rest : Outcome) → b ≡ false → make b m rest ≡ rest
made b m rest e = rw e refl

made_nil :
    (b : Bool) (m : LambdaMgr) (rest : Outcome)
    → b ≡ true
    → m.provider ≡ typed_nil
    → make b m rest ≡ crashes m
made_nil b m rest e nil = ap (λ (b : Bool). make b m rest) e ∙ ap (cleaned_up m) (cleanup_nil m nil)

crashed :
    (c : Conf) (j : ℕ)
    → c.code_fails ≡ false
    → c.scratch_fails ≡ false
    → c.pool_fails ≡ false
    → c.tracer_fails ≡ false
    → c.package_puller_fails ≡ false
    → j < trees_wanted c.import_cache c.cpus
    → c.tree_fails j ≡ true
    → new_lambda_mgr c ≡ crashes (with_provider c)
unfolding new_lambda_mgr
crashed c j e1 e2 e3 e4 e5 wanted bad =
    let (failed, nil) = bad_provider c c.import_cache j wanted bad in
    let sixth = make c.handler_puller_fails (with_provider c) (returns (with_provider c)) in
    let last = make (zygotes_fail c) (with_provider c) sixth in
    let fifth = make c.package_puller_fails with_tracer last in
    let fourth = make c.tracer_fails with_pool fifth in
    let third = make c.pool_fails with_scratches fourth in
    made c.code_fails new_mgr (make c.scratch_fails with_codes third) e1
    ∙ made c.scratch_fails with_codes third e2
    ∙ made c.pool_fails with_scratches fourth e3
    ∙ made c.tracer_fails with_pool fifth e4
    ∙ made c.package_puller_fails with_tracer last e5
    ∙ made_nil (zygotes_fail c) (with_provider c) sixth (ap not failed) nil

-- Where a tree of Zygotes that the settings ask for cannot be made, after the subsystems before it
-- were, the manager does not return the error: the clean-up calls a method on a nil pointer, so that
-- `GetLambdaManagerInstance` panics, and the pool of sandboxes is not cleaned up.
pub bad_tree_dies :
    (c : Conf) (j : ℕ)
    → c.code_fails ≡ false
    → c.scratch_fails ≡ false
    → c.pool_fails ≡ false
    → c.tracer_fails ≡ false
    → c.package_puller_fails ≡ false
    → j < trees_wanted c.import_cache c.cpus
    → c.tree_fails j ≡ true
    → (m : LambdaMgr) × (new_lambda_mgr c ≡ crashes m)
      × (get_lambda_manager_instance c never_asked ≡ dies)
      × (created_count sb_pool m.acts ≡ cleaned_count sb_pool m.acts + 1)
unfolding get_lambda_manager_instance
bad_tree_dies c j e1 e2 e3 e4 e5 wanted bad =
    let kept = provider-Kept sb_pool 0 c c.import_cache in
    let dead = crashed c j e1 e2 e3 e4 e5 wanted bad in
    (
      with_provider c,
      dead,
      ap first_answer dead,
      omega (arith, kept.systems, ap bit (pool_there c c.import_cache)),
    )
