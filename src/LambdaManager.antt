-- ===== src/LambdaManager.antt =====
-- go/worker/lambda/lambdaManager.go, zygote/zygote.go and zygote/multiTree.go: the manager of lambda
-- functions makes the subsystems, holds the map of functions, and shuts all down. Functions are
-- numbers. Which constructors fail is part of `Conf`. What happens is a list of acts, the newest first.
mod Acts
mod Ending
mod Starting
mod Sessions
mod Failing
mod Tests
use open_lambda.Prelude.{
  ℕ, zero, suc, ◌+◌, ◌-◌, ◌*◌, Bool, true, false, ◌&&◌, ◌||◌, not, List, [], ◌∷◌, Option, none,
  some, if◌then◌else◌, ◌==◌, ltb, elem,
}

pub data Subsystem : Type 0 where
  code_dirs : Subsystem
  scratch_dirs : Subsystem
  sb_pool : Subsystem
  dep_tracer : Subsystem
  tree : ℕ → Subsystem

pub data Act : Type 0 where
  created : Subsystem → Act
  cleaned : Subsystem → Act
  started : ℕ → Act
  killed : ℕ → Act

-- `Import_cache`: empty, one of the two that exist, or another name.
pub data ImportCacheName : Type 0 where
  no_cache : ImportCacheName
  one_tree : ImportCacheName
  multitree : ImportCacheName
  unknown : ImportCacheName

pub record Conf : Type 0 where
  pub import_cache : ImportCacheName
  pub cpus : ℕ
  pub code_fails : Bool
  pub scratch_fails : Bool
  pub pool_fails : Bool
  pub tracer_fails : Bool
  pub package_puller_fails : Bool
  pub tree_fails : ℕ → Bool
  pub handler_puller_fails : Bool

-- The field of type `ZygoteProvider`: nil, an interface that holds a nil pointer, or that many trees.
pub data Provider : Type 0 where
  absent : Provider
  typed_nil : Provider
  trees : ℕ → Provider

pub record LambdaMgr : Type 0 where
  pub codes : Bool
  pub scratches : Bool
  pub pool : Bool
  pub tracer : Bool
  pub provider : Provider
  pub lfunc_map : List ℕ
  pub locked : Bool
  pub acts : List Act

pub data Outcome : Type 0 where
  returns : LambdaMgr → Outcome
  fails : LambdaMgr → Outcome
  crashes : LambdaMgr → Outcome

abbrev pub new_mgr : LambdaMgr
new_mgr = record {
  codes = false;
  scratches = false;
  pool = false;
  tracer = false;
  provider = absent;
  lfunc_map = [];
  locked = false;
  acts = [];
}

-- `for j := 0; j < n; j++ { trees[j].Cleanup() }`
abbrev pub clean_trees : ℕ → List Act → List Act
clean_trees zero past = past
clean_trees (suc n) past = cleaned (tree n) ∷ clean_trees n past

unfoldable pub tree_count : ℕ → ℕ
tree_count cpus = if ltb cpus 3 then 6 else if ltb 10 cpus then 16 else cpus * 2

-- The loop of `NewMultiTree`: `i` trees are made, and `k` are left to make.
abbrev pub make_trees : (ℕ → Bool) → ℕ → ℕ → List Act → Bool × List Act
make_trees tree_fails i zero past = (true, past)
make_trees tree_fails i (suc k) past =
    let more = make_trees tree_fails (suc i) k (created (tree i) ∷ past) in
    if tree_fails i then (false, clean_trees i past) else more

abbrev pub provider_of : ℕ → Bool × List Act → LambdaMgr → LambdaMgr
provider_of n (true, past) m = record m { provider = trees n; acts = past }
provider_of n (false, past) m = record m { provider = typed_nil; acts = past }

abbrev pub no_error : Bool × List Act → Bool
no_error (ok, past) = ok

abbrev pub made_trees : Conf → ImportCacheName → List Act → Bool × List Act
made_trees c no_cache past = (true, past)
made_trees c one_tree past = make_trees c.tree_fails 0 1 past
made_trees c multitree past = make_trees c.tree_fails 0 (tree_count c.cpus) past
made_trees c unknown past = (false, past)

-- `NewZygoteProvider` as it is called: a nil pointer of a constructor that fails becomes an interface
-- that is not nil.
abbrev pub new_zygote_provider : Conf → ImportCacheName → LambdaMgr → LambdaMgr
new_zygote_provider c no_cache m = m
new_zygote_provider c one_tree m = provider_of 1 (made_trees c one_tree m.acts) m
new_zygote_provider c multitree m =
    provider_of (tree_count c.cpus) (made_trees c multitree m.acts) m
new_zygote_provider c unknown m = m

abbrev pub kill_all : List ℕ → List Act → List Act
kill_all [] past = past
kill_all (f ∷ fs) past = kill_all fs (killed f ∷ past)

abbrev pub clean : Bool → Subsystem → List Act → List Act
clean false s past = past
clean true s past = cleaned s ∷ past

abbrev pub clean_rest : LambdaMgr → List Act → List Act
clean_rest m past =
    clean m.scratches scratch_dirs
      (clean m.codes code_dirs (clean m.tracer dep_tracer (clean m.pool sb_pool past)))

abbrev pub clean_provider : Provider → LambdaMgr → List Act → Option (List Act)
clean_provider absent m past = some (clean_rest m past)
clean_provider typed_nil m past = none
clean_provider (trees n) m past = some (clean_rest m (clean_trees n past))

-- `none` is the panic on the nil pointer.
unfoldable pub cleanup : LambdaMgr → Option (List Act)
cleanup m = clean_provider m.provider m (kill_all m.lfunc_map m.acts)

abbrev pub cleaned_up : LambdaMgr → Option (List Act) → Outcome
cleaned_up m none = crashes m
cleaned_up m (some past) = fails (record m { locked = true; acts = past })

-- One constructor of `newLambdaMgr`: whether it fails, the manager as the deferred function finds it
-- then, and what follows otherwise.
abbrev pub make : Bool → LambdaMgr → Outcome → Outcome
make true m rest = cleaned_up m (cleanup m)
make false m rest = rest

abbrev pub with_codes : LambdaMgr
with_codes = record new_mgr { codes = true; acts = created code_dirs ∷ [] }

abbrev pub with_scratches : LambdaMgr
with_scratches = record with_codes {
  scratches = true;
  acts = created scratch_dirs ∷ with_codes.acts;
}

abbrev pub with_pool : LambdaMgr
with_pool = record with_scratches { pool = true; acts = created sb_pool ∷ with_scratches.acts }

abbrev pub with_tracer : LambdaMgr
with_tracer = record with_pool { tracer = true; acts = created dep_tracer ∷ with_pool.acts }

abbrev pub with_provider : Conf → LambdaMgr
with_provider c = new_zygote_provider c c.import_cache with_tracer

abbrev pub zygotes_fail : Conf → Bool
zygotes_fail c = not (no_error (made_trees c c.import_cache with_tracer.acts))

unfoldable pub new_lambda_mgr : Conf → Outcome
new_lambda_mgr c = make c.code_fails new_mgr (
    make c.scratch_fails with_codes (
      make c.pool_fails with_scratches (
        make c.tracer_fails with_pool (
          make c.package_puller_fails with_tracer (
            make (zygotes_fail c) (with_provider c)
              (make c.handler_puller_fails (with_provider c) (returns (with_provider c))))))))

-- `Get`; `none` where the mutex is never unlocked again.
unfoldable pub get : ℕ → LambdaMgr → Option LambdaMgr
get f m =
    if m.locked
    then none
    else some (
        if elem f m.lfunc_map
        then m
        else record m { lfunc_map = f ∷ m.lfunc_map; acts = started f ∷ m.acts })

-- The two variables behind `GetLambdaManagerInstance`: whether the manager was made before, and the
-- manager. An answer is a manager or nil, and whether there is an error.
pub record Instance : Type 0 where
  pub done : Bool
  pub lambda_mgr : Option LambdaMgr

pub data Answer : Type 0 where
  answers : Option LambdaMgr → Bool → Instance → Answer
  dies : Answer

abbrev pub first_answer : Outcome → Answer
first_answer (returns m) = answers (some m) false (record { done = true; lambda_mgr = some m })
first_answer (fails m) = answers none true (record { done = true; lambda_mgr = none })
first_answer (crashes m) = dies

unfoldable pub get_lambda_manager_instance : Conf → Instance → Answer
get_lambda_manager_instance c i =
    if i.done then answers i.lambda_mgr false i else first_answer (new_lambda_mgr c)
