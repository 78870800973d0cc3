-- ===== src/LambdaManager/Starting.antt =====
-- go/worker/lambda/lambdaManager.go, zygote/multiTree.go: making the manager, and what its errors leave.
use open_lambda.Prelude.{
  ℕ, zero, suc, ◌+◌, ◌≡◌, refl, sym, ◌∙◌, subst, Bool, true, false, not, List, ◌∷◌, arith,
  if◌then◌else◌, Bool-cases, inl, inr,
}
use open_lambda.LambdaManager.{
  Subsystem, code_dirs, scratch_dirs, sb_pool, dep_tracer, tree, Act, created, Provider, absent,
  typed_nil, trees, LambdaMgr, Outcome, returns, fails, crashes, Conf, no_cache, one_tree,
  multitree, unknown, clean_trees, cleanup, make_trees, made_trees, tree_count, provider_of,
  no_error, ImportCacheName, new_mgr, with_codes, with_scratches, with_pool, with_tracer,
  with_provider, new_zygote_provider, zygotes_fail, make, cleaned_up, new_lambda_mgr,
}
use open_lambda.LambdaManager.Acts.{
  Kept, Ended, created_count, cleaned_count, started_count, killed_count, dependants, running,
  in_order, below, below-tree, held,
}
use open_lambda.LambdaManager.Ending.{
  Sound, cleanup-Ended, cleanup_nil, clean_trees_counts, running-clean_trees,
}

-- With `n` more trees than were cleaned up.
record Grown (s : Subsystem) (g h n : ℕ) (past : List Act) : Type 0 where
  systems : created_count s past ≡ cleaned_count s past + h + below s n
  tasks : started_count g past ≡ killed_count g past
  alive : dependants past ≡ n
  functions : running past ≡ 0
  order : in_order past ≡ true

abbrev GrownIf : Subsystem → ℕ → ℕ → ℕ → Bool × List Act → Type 0
GrownIf s g h n (true, past) = Grown s g h n past
GrownIf s g h n (false, past) = Grown s g h 0 past

if-GrownIf :
    (s : Subsystem) (g h n : ℕ) (b : Bool) (x y : Bool × List Act)
    → GrownIf s g h n x
    → GrownIf s g h n y
    → GrownIf s g h n (if b then x else y)
if-GrownIf s g h n true x y k j = k
if-GrownIf s g h n false x y k j = j

below_zero : (s : Subsystem) → below s 0 ≡ 0
below_zero code_dirs = refl
below_zero scratch_dirs = refl
below_zero sb_pool = refl
below_zero dep_tracer = refl
below_zero (tree i) = ground arith

make_trees-GrownIf :
    (s : Subsystem) (g h n : ℕ) (tree_fails : ℕ → Bool) (i k : ℕ) (past : List Act)
    → i + k ≡ n
    → Grown s g h i past
    → GrownIf s g h n (make_trees tree_fails i k past)
make_trees-GrownIf s g h n tree_fails i zero past e grown =
    let all : i ≡ n = omega (arith, e) in subst (λ (j : ℕ). Grown s g h j past) all grown
make_trees-GrownIf s g h n tree_fails i (suc k) past e grown =
    let (made, gone, begun, ended, left, ordered) = clean_trees_counts s g i past grown.functions in
    if-GrownIf s g h n (tree_fails i) (false, clean_trees i past)
      (make_trees tree_fails (suc i) k (created (tree i) ∷ past))
      (record {
        systems = omega (arith, made, gone, grown.systems, below_zero s);
        tasks = begun ∙ grown.tasks ∙ sym ended;
        alive = omega (arith, left, grown.alive);
        functions = running-clean_trees i past ∙ grown.functions;
        order = ordered ∙ grown.order;
      })
      (make_trees-GrownIf s g h n tree_fails (suc i) k (created (tree i) ∷ past) (omega (arith, e))
        (record {
          systems = ground (arith, grown.systems, below-tree s i);
          tasks = grown.tasks;
          alive = omega (arith, grown.alive);
          functions = grown.functions;
          order = grown.order;
        }))

with_tracer-Grown : (s : Subsystem) (g : ℕ) → Grown s g (held s with_tracer) 0 with_tracer.acts
with_tracer-Grown code_dirs g = record {
  systems = refl;
  tasks = refl;
  alive = refl;
  functions = refl;
  order = refl;
}
with_tracer-Grown scratch_dirs g = record {
  systems = refl;
  tasks = refl;
  alive = refl;
  functions = refl;
  order = refl;
}
with_tracer-Grown sb_pool g = record {
  systems = refl;
  tasks = refl;
  alive = refl;
  functions = refl;
  order = refl;
}
with_tracer-Grown dep_tracer g = record {
  systems = refl;
  tasks = refl;
  alive = refl;
  functions = refl;
  order = refl;
}
with_tracer-Grown (tree i) g = record {
  systems = ground arith;
  tasks = refl;
  alive = refl;
  functions = refl;
  order = refl;
}

held_trees :
    (s : Subsystem) (n : ℕ) (past : List Act)
    → held s (record with_tracer { provider = trees n; acts = past })
      ≡ held s with_tracer + below s n
held_trees code_dirs n past = omega arith
held_trees scratch_dirs n past = omega arith
held_trees sb_pool n past = omega arith
held_trees dep_tracer n past = omega arith
held_trees (tree i) n past = omega arith

held_nil :
    (s : Subsystem) (past : List Act)
    → held s (record with_tracer { provider = typed_nil; acts = past }) ≡ held s with_tracer
held_nil code_dirs past = refl
held_nil scratch_dirs past = refl
held_nil sb_pool past = refl
held_nil dep_tracer past = refl
held_nil (tree i) past = refl

provider_of-Kept :
    (s : Subsystem) (g n : ℕ) (r : Bool × List Act)
    → GrownIf s g (held s with_tracer) n r
    → Kept s g (provider_of n r with_tracer)
provider_of-Kept s g n (true, past) grown = record {
  systems = omega (arith, grown.systems, held_trees s n past);
  tasks = omega (arith, grown.tasks);
  alive = omega (arith, grown.alive);
  functions = grown.functions;
  order = grown.order;
}
provider_of-Kept s g n (false, past) grown = record {
  systems = omega (arith, grown.systems, held_nil s past, below_zero s);
  tasks = omega (arith, grown.tasks);
  alive = omega (arith, grown.alive);
  functions = grown.functions;
  order = grown.order;
}

-- Every stage of the start keeps account.
with_tracer-Kept : (s : Subsystem) (g : ℕ) → Kept s g with_tracer
with_tracer-Kept s g =
    let grown = with_tracer-Grown s g in
    record {
      systems = omega (arith, grown.systems, below_zero s);
      tasks = refl;
      alive = refl;
      functions = refl;
      order = refl;
    }

pub provider-Kept :
    (s : Subsystem) (g : ℕ) (c : Conf) (name : ImportCacheName)
    → Kept s g (new_zygote_provider c name with_tracer)
provider-Kept s g c no_cache = with_tracer-Kept s g
provider-Kept s g c one_tree =
    provider_of-Kept s g 1 (make_trees c.tree_fails 0 1 with_tracer.acts) (
      make_trees-GrownIf s g (held s with_tracer) 1 c.tree_fails 0 1 with_tracer.acts refl
        (with_tracer-Grown s g))
provider-Kept s g c multitree =
    let n = tree_count c.cpus in
    provider_of-Kept s g n (make_trees c.tree_fails 0 n with_tracer.acts) (
      make_trees-GrownIf s g (held s with_tracer) n c.tree_fails 0 n with_tracer.acts (omega arith)
        (with_tracer-Grown s g))
provider-Kept s g c unknown = with_tracer-Kept s g

abbrev Keeps : Subsystem → LambdaMgr → Type 0
Keeps s m = created_count s m.acts ≡ cleaned_count s m.acts + held s m

early_systems :
    (s : Subsystem)
    → Keeps s new_mgr × Keeps s with_codes × Keeps s with_scratches × Keeps s with_pool
early_systems code_dirs = (refl, refl, refl, refl)
early_systems scratch_dirs = (refl, refl, refl, refl)
early_systems sb_pool = (refl, refl, refl, refl)
early_systems dep_tracer = (refl, refl, refl, refl)
early_systems (tree i) = (refl, refl, refl, refl)

early-Kept :
    (s : Subsystem) (g : ℕ)
    → Kept s g new_mgr × Kept s g with_codes × Kept s g with_scratches × Kept s g with_pool
early-Kept s g =
    let (one, two, three, four) = early_systems s in
    (
      record { systems = one; tasks = refl; alive = refl; functions = refl; order = refl },
      record { systems = two; tasks = refl; alive = refl; functions = refl; order = refl },
      record { systems = three; tasks = refl; alive = refl; functions = refl; order = refl },
      record { systems = four; tasks = refl; alive = refl; functions = refl; order = refl },
    )

-- A manager, or an error that leaves nothing; a crash is not judged.
abbrev pub Clean : Subsystem → ℕ → Outcome → Type 0
Clean s g (returns m) = Kept s g m × Sound m.provider
Clean s g (fails m) = (n : ℕ) × Ended s g n m.acts
Clean s g (crashes m) = Unit

cleaned_up-Clean :
    (s : Subsystem) (g : ℕ) (p : Provider) (m : LambdaMgr)
    → m.provider ≡ p
    → Kept s g m
    → Clean s g (cleaned_up m (cleanup m))
cleaned_up-Clean s g absent m e k =
    let (past, done, ended) = cleanup-Ended s g absent m e k tt in
    rw done (started_count g m.acts, ended)
cleaned_up-Clean s g typed_nil m e k = rw (cleanup_nil m e) tt
cleaned_up-Clean s g (trees n) m e k =
    let (past, done, ended) = cleanup-Ended s g (trees n) m e k tt in
    rw done (started_count g m.acts, ended)

make-Clean :
    (s : Subsystem) (g : ℕ) (b : Bool) (m : LambdaMgr) (rest : Outcome)
    → Kept s g m
    → Clean s g rest
    → Clean s g (make b m rest)
make-Clean s g true m rest k h = cleaned_up-Clean s g m.provider m refl k
make-Clean s g false m rest k h = h

-- Where making the trees does not fail, the provider holds no nil pointer.
provider_of-Sound :
    (n : ℕ) (r : Bool × List Act) (m : LambdaMgr)
    → not (no_error r) ≡ false
    → Sound (provider_of n r m).provider
provider_of-Sound n (true, past) m e = tt
provider_of-Sound n (false, past) m e = let bad : ⊥ = cc in bad

provider-Sound :
    (c : Conf) (name : ImportCacheName)
    → not (no_error (made_trees c name with_tracer.acts)) ≡ false
    → Sound (new_zygote_provider c name with_tracer).provider
provider-Sound c no_cache e = tt
provider-Sound c one_tree e =
    provider_of-Sound 1 (made_trees c one_tree with_tracer.acts) with_tracer e
provider-Sound c multitree e =
    provider_of-Sound (tree_count c.cpus) (made_trees c multitree with_tracer.acts) with_tracer e
provider-Sound c unknown e = tt

last-Clean :
    (s : Subsystem) (g : ℕ) (c : Conf)
    → Clean s g (
        make
          (zygotes_fail c)
          (with_provider c)
          (make c.handler_puller_fails (with_provider c) (returns (with_provider c))))
last-Clean s g c =
    let kept = provider-Kept s g c c.import_cache in
    elim (Bool-cases (zygotes_fail c)) [
      | inl failed ↦
          rw failed (cleaned_up-Clean s g (with_provider c).provider (with_provider c) refl kept)
      | inr made ↦ rw made (
          make-Clean s g c.handler_puller_fails (with_provider c) (returns (with_provider c)) kept
            (kept, provider-Sound c c.import_cache made))
    ]

-- What holds of each clean-up after an error, and of the end, holds of the start.
pub make-Holds :
    (P : Outcome → Type 0) (b : Bool) (m : LambdaMgr) (rest : Outcome)
    → P (cleaned_up m (cleanup m))
    → P rest
    → P (make b m rest)
make-Holds P true m rest h k = h
make-Holds P false m rest h k = k

abbrev pub last_steps : Conf → Outcome
last_steps c =
    make (zygotes_fail c) (with_provider c)
      (make c.handler_puller_fails (with_provider c) (returns (with_provider c)))

pub new_lambda_mgr-Holds :
    (P : Outcome → Type 0) (c : Conf)
    → P (cleaned_up new_mgr (cleanup new_mgr))
    → P (cleaned_up with_codes (cleanup with_codes))
    → P (cleaned_up with_scratches (cleanup with_scratches))
    → P (cleaned_up with_pool (cleanup with_pool))
    → P (cleaned_up with_tracer (cleanup with_tracer))
    → P (last_steps c)
    → P (new_lambda_mgr c)
unfolding new_lambda_mgr
new_lambda_mgr-Holds P c h1 h2 h3 h4 h5 h6 =
    let fifth = make c.package_puller_fails with_tracer (last_steps c) in
    let fourth = make c.tracer_fails with_pool fifth in
    let third = make c.pool_fails with_scratches fourth in
    make-Holds P c.code_fails new_mgr (make c.scratch_fails with_codes third) h1 (
      make-Holds P c.scratch_fails with_codes third h2 (
        make-Holds P c.pool_fails with_scratches fourth h3 (
          make-Holds P c.tracer_fails with_pool fifth h4
            (make-Holds P c.package_puller_fails with_tracer (last_steps c) h5 h6))))

-- Making the manager.
pub new_lambda_mgr-Clean : (s : Subsystem) (g : ℕ) (c : Conf) → Clean s g (new_lambda_mgr c)
new_lambda_mgr-Clean s g c =
    let (none_made, codes, scratches, pool) = early-Kept s g in
    new_lambda_mgr-Holds (Clean s g) c (cleaned_up-Clean s g absent new_mgr refl none_made)
      (cleaned_up-Clean s g absent with_codes refl codes)
      (cleaned_up-Clean s g absent with_scratches refl scratches)
      (cleaned_up-Clean s g absent with_pool refl pool)
      (cleaned_up-Clean s g absent with_tracer refl (with_tracer-Kept s g)) (last-Clean s g c)
