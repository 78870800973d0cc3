-- ===== src/LambdaManager/Tests.antt =====
-- go/worker/lambda/lambdaManager.go: concrete starts, and instances of the theorems.
use open_lambda.Prelude.{ℕ, ◌≡◌, ◌+◌, refl, true, false, List, [], ◌∷◌, none, some, arith}
use open_lambda.LambdaManager.{
  code_dirs, sb_pool, tree, Act, LambdaMgr, returns, fails, crashes, Conf, one_tree, new_lambda_mgr,
  cleanup, Instance, answers, dies, get_lambda_manager_instance, with_provider, with_codes, created,
  cleaned,
}
use open_lambda.LambdaManager.Acts.{
  created_count, cleaned_count, started_count, killed_count, in_order,
}
use open_lambda.LambdaManager.Sessions.{get_all, session_ends}
use open_lambda.LambdaManager.Failing.{never_asked, failed_start, bad_tree_dies}

abbrev sound : Conf
sound = record {
  import_cache = one_tree;
  cpus = 4;
  code_fails = false;
  scratch_fails = false;
  pool_fails = false;
  tracer_fails = false;
  package_puller_fails = false;
  tree_fails = λ (i : ℕ). false;
  handler_puller_fails = false;
}

abbrev no_scratch : Conf
no_scratch = record sound { scratch_fails = true }

abbrev bad_tree : Conf
bad_tree = record sound { tree_fails = λ (i : ℕ). true }

sound_starts : new_lambda_mgr sound ≡ returns (with_provider sound)
unfolding new_lambda_mgr
sound_starts = refl

abbrev after_error : LambdaMgr
after_error = record with_codes { locked = true; acts = cleaned code_dirs ∷ created code_dirs ∷ [] }

no_scratch_fails : new_lambda_mgr no_scratch ≡ fails after_error
unfolding new_lambda_mgr cleanup
no_scratch_fails = refl

session_ends_example :
    (m : LambdaMgr) × (past : List Act) × (get_all (5 ∷ 7 ∷ 5 ∷ []) (with_provider sound) ≡ some m)
    × (cleanup m ≡ some past)
    × (created_count (tree 0) past ≡ cleaned_count (tree 0) past)
    × (started_count 5 past ≡ 1)
    × (killed_count 5 past ≡ 1)
    × (in_order past ≡ true)
session_ends_example =
    session_ends sound (5 ∷ 7 ∷ 5 ∷ []) (with_provider sound) (tree 0) 5 sound_starts

failed_start_example :
    (i : Instance) × (created_count code_dirs after_error.acts
      ≡ cleaned_count code_dirs after_error.acts)
    × (in_order after_error.acts ≡ true)
    × (get_lambda_manager_instance no_scratch never_asked ≡ answers none true i)
    × (get_lambda_manager_instance sound i ≡ answers none false i)
failed_start_example = failed_start no_scratch sound after_error code_dirs no_scratch_fails

bad_tree_dies_example :
    (m : LambdaMgr) × (new_lambda_mgr bad_tree ≡ crashes m)
    × (get_lambda_manager_instance bad_tree never_asked ≡ dies)
    × (created_count sb_pool m.acts ≡ cleaned_count sb_pool m.acts + 1)
bad_tree_dies_example = bad_tree_dies bad_tree 0 refl refl refl refl refl (omega arith) refl
