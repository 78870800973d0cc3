-- ===== src/LambdaManager/Sessions.antt =====
-- go/worker/lambda/lambdaManager.go: a manager from its start to its end.
use open_lambda.Prelude.{
  ℕ, zero, suc, ◌+◌, ◌≡◌, refl, sym, ap, ◌∙◌, subst, Bool, true, false, ◌||◌, List, [], ◌∷◌, Option,
  none, some, arith, if◌then◌else◌, ◌==◌, elem, count, Bool-cases, inl, inr,
}
use open_lambda.LambdaManager.{
  Subsystem, code_dirs, scratch_dirs, sb_pool, dep_tracer, tree, Act, created, started, LambdaMgr,
  Outcome, returns, fails, Conf, cleanup, new_lambda_mgr, get, make, make_trees, clean_trees,
  cleaned_up, provider_of, new_zygote_provider, with_codes, with_scratches, with_pool, with_tracer,
  with_provider, new_mgr, no_cache, one_tree, multitree, unknown, ImportCacheName, crashes,
  tree_count, zygotes_fail,
}
use open_lambda.LambdaManager.Acts.{
  Kept, created_count, cleaned_count, started_count, killed_count, in_order, bit, held,
}
use open_lambda.LambdaManager.Ending.{Sound, cleanup-Ended}
use open_lambda.LambdaManager.Starting.{
  make-Holds, new_lambda_mgr-Holds, new_lambda_mgr-Clean, Clean,
}

abbrev and_get : Option LambdaMgr → (LambdaMgr → Option LambdaMgr) → Option LambdaMgr
and_get none f = none
and_get (some m) f = f m

-- Calls of `Get` one after another.
unfoldable pub get_all : List ℕ → LambdaMgr → Option LambdaMgr
get_all [] m = some m
get_all (f ∷ fs) m = and_get (get f m) (get_all fs)

-- A manager in use, for which `asked` tells whether `Get` was called for the function.
record Serving (s : Subsystem) (g : ℕ) (asked : Bool) (m : LambdaMgr) : Type 0 where
  kept : Kept s g m
  sound : Sound m.provider
  open_ : m.locked ≡ false
  known : elem g m.lfunc_map ≡ asked
  once : count g m.lfunc_map ≡ bit asked
  begun : started_count g m.acts ≡ bit asked

get_known :
    (f : ℕ) (m : LambdaMgr) → m.locked ≡ false → elem f m.lfunc_map ≡ true → get f m ≡ some m
unfolding get
get_known f m e k = rw (e, k) refl

get_new :
    (f : ℕ) (m : LambdaMgr)
    → m.locked ≡ false
    → elem f m.lfunc_map ≡ false
    → get f m ≡ some (record m { lfunc_map = f ∷ m.lfunc_map; acts = started f ∷ m.acts })
unfolding get
get_new f m e k = rw (e, k) refl

asked_before :
    (g f : ℕ) (asked : Bool) (m : LambdaMgr)
    → elem g m.lfunc_map ≡ asked
    → elem f m.lfunc_map ≡ true
    → (f == g || asked) ≡ asked
asked_before g f asked m known there = elim (Bool-cases (f == g)) [
  | inl same ↦
      let one : f ≡ g = ground (arith, same) in
      let yes_asked : asked ≡ true =
        sym known ∙ ap (λ (k : ℕ). elem k m.lfunc_map) (sym one) ∙ there in
      rw (same, yes_asked) refl
  | inr other ↦ rw other refl
]

held_more :
    (s : Subsystem) (f : ℕ) (m : LambdaMgr)
    → held s m ≡ held s (record m { lfunc_map = f ∷ m.lfunc_map; acts = started f ∷ m.acts })
held_more code_dirs f m = refl
held_more scratch_dirs f m = refl
held_more sb_pool f m = refl
held_more dep_tracer f m = refl
held_more (tree i) f m = refl

-- A function that is not in the map was not asked for.
not_asked :
    (g f : ℕ) (asked : Bool) (m : LambdaMgr)
    → elem g m.lfunc_map ≡ asked
    → elem f m.lfunc_map ≡ false
    → f == g ≡ true
    → asked ≡ false
not_asked g f asked m known new same =
    let one : f ≡ g = ground (arith, same) in
    sym known ∙ ap (λ (k : ℕ). elem k m.lfunc_map) (sym one) ∙ new

one_more :
    (g f n : ℕ) (asked : Bool) (m : LambdaMgr)
    → elem g m.lfunc_map ≡ asked
    → n ≡ bit asked
    → elem f m.lfunc_map ≡ false
    → (if f == g then suc n else n) ≡ bit (f == g || asked)
one_more g f n asked m known e new = elim (Bool-cases (f == g)) [
  | inl same ↦ rw (same, e, not_asked g f asked m known new same) refl
  | inr other ↦ rw other e
]

get-Serving :
    (s : Subsystem) (g f : ℕ) (asked : Bool) (m : LambdaMgr)
    → Serving s g asked m
    → (m' : LambdaMgr) × (get f m ≡ some m') × Serving s g (f == g || asked) m'
get-Serving s g f asked m h = elim (Bool-cases (elem f m.lfunc_map)) [
  | inl there ↦ (
    m,
    get_known f m h.open_ there,
    subst (λ (b : Bool). Serving s g b m) (sym (asked_before g f asked m h.known there)) h,
  )
  | inr new ↦ (
    record m { lfunc_map = f ∷ m.lfunc_map; acts = started f ∷ m.acts },
    get_new f m h.open_ new,
    record {
      kept = record {
        systems = h.kept.systems ∙ ap (λ (n : ℕ). cleaned_count s m.acts + n) (held_more s f m);
        tasks = ground (arith, h.kept.tasks);
        alive = omega (arith, h.kept.alive);
        functions = omega (arith, h.kept.functions);
        order = h.kept.order;
      };
      sound = h.sound;
      open_ = h.open_;
      known = ap (λ (b : Bool). f == g || b) h.known;
      once = one_more g f (count g m.lfunc_map) asked m h.known h.once new;
      begun = one_more g f (started_count g m.acts) asked m h.known h.begun new;
    },
  )
]

or_assoc : (a b c : Bool) → ((a || b) || c) ≡ (b || (a || c))
or_assoc true true c = refl
or_assoc true false c = refl
or_assoc false true c = refl
or_assoc false false c = refl

get_all-Serving :
    (s : Subsystem) (g : ℕ) (fs : List ℕ) (asked : Bool) (m : LambdaMgr)
    → Serving s g asked m
    → (m' : LambdaMgr) × (get_all fs m ≡ some m') × Serving s g (asked || elem g fs) m'
unfolding get_all
get_all-Serving s g [] true m h = (m, refl, h)
get_all-Serving s g [] false m h = (m, refl, h)
get_all-Serving s g (f ∷ fs) asked m h =
    let (m1, one, h1) = get-Serving s g f asked m h in
    let (m2, more, h2) = get_all-Serving s g fs (f == g || asked) m1 h1 in
    (
      m2,
      rw one more,
      subst (λ (b : Bool). Serving s g b m2) (or_assoc (f == g) asked (elem g fs)) h2,
    )

start-Serving :
    (s : Subsystem) (g : ℕ) (m : LambdaMgr)
    → Clean s g (returns m)
    → m.lfunc_map ≡ []
    → m.locked ≡ false
    → killed_count g m.acts ≡ 0
    → Serving s g false m
start-Serving s g m (kept, sound) none_yet open_ none_killed = record {
  kept = kept;
  sound = sound;
  open_ = open_;
  known = ap (elem g) none_yet;
  once = ap (count g) none_yet;
  begun = omega (arith, kept.tasks, none_killed, ap (count g) none_yet);
}

-- Making the trees kills no function.
abbrev acts_of : Bool × List Act → List Act
acts_of (ok, past) = past

if-killed :
    (g n : ℕ) (b : Bool) (x y : Bool × List Act)
    → killed_count g (acts_of x) ≡ n
    → killed_count g (acts_of y) ≡ n
    → killed_count g (acts_of (if b then x else y)) ≡ n
if-killed g n true x y h k = h
if-killed g n false x y h k = k

killed-clean_trees :
    (g n : ℕ) (past : List Act) → killed_count g (clean_trees n past) ≡ killed_count g past
killed-clean_trees g zero past = refl
killed-clean_trees g (suc n) past = killed-clean_trees g n past

killed-make_trees :
    (g : ℕ) (tree_fails : ℕ → Bool) (i k : ℕ) (past : List Act)
    → killed_count g past ≡ 0
    → killed_count g (acts_of (make_trees tree_fails i k past)) ≡ 0
killed-make_trees g tree_fails i zero past h = h
killed-make_trees g tree_fails i (suc k) past h =
    if-killed g 0 (tree_fails i) (false, clean_trees i past)
      (make_trees tree_fails (suc i) k (created (tree i) ∷ past)) (killed-clean_trees g i past ∙ h)
      (killed-make_trees g tree_fails (suc i) k (created (tree i) ∷ past) h)

abbrev Fresh : ℕ → Outcome → Type 0
Fresh g (returns m) = (m.lfunc_map ≡ []) × (m.locked ≡ false) × (killed_count g m.acts ≡ 0)
Fresh g (fails m) = Unit
Fresh g (crashes m) = Unit

provider_of-Fresh :
    (g n : ℕ) (r : Bool × List Act)
    → killed_count g (acts_of r) ≡ 0
    → Fresh g (returns (provider_of n r with_tracer))
provider_of-Fresh g n (true, past) h = (refl, refl, h)
provider_of-Fresh g n (false, past) h = (refl, refl, h)

provider-Fresh :
    (g : ℕ) (c : Conf) (name : ImportCacheName)
    → Fresh g (returns (new_zygote_provider c name with_tracer))
provider-Fresh g c no_cache = (refl, refl, refl)
provider-Fresh g c one_tree =
    provider_of-Fresh g 1 (make_trees c.tree_fails 0 1 with_tracer.acts)
      (killed-make_trees g c.tree_fails 0 1 with_tracer.acts refl)
provider-Fresh g c multitree =
    provider_of-Fresh g (tree_count c.cpus)
      (make_trees c.tree_fails 0 (tree_count c.cpus) with_tracer.acts)
      (killed-make_trees g c.tree_fails 0 (tree_count c.cpus) with_tracer.acts refl)
provider-Fresh g c unknown = (refl, refl, refl)

cleaned_up-Fresh : (g : ℕ) (m : LambdaMgr) (past : Option (List Act)) → Fresh g (cleaned_up m past)
cleaned_up-Fresh g m none = tt
cleaned_up-Fresh g m (some past) = tt

new_lambda_mgr-Fresh : (g : ℕ) (c : Conf) → Fresh g (new_lambda_mgr c)
new_lambda_mgr-Fresh g c =
    let none_returned = λ (m : LambdaMgr). cleaned_up-Fresh g m (cleanup m) in
    let end = with_provider c in
    new_lambda_mgr-Holds (Fresh g) c (none_returned new_mgr) (none_returned with_codes)
      (none_returned with_scratches) (none_returned with_pool) (none_returned with_tracer)
      (make-Holds (Fresh g) (zygotes_fail c) end (make c.handler_puller_fails end (returns end))
        (none_returned end)
        (make-Holds (Fresh g) c.handler_puller_fails end (returns end) (none_returned end)
          (provider-Fresh g c c.import_cache)))

-- A manager that was made, then asked for functions in any order, and then shut down, has cleaned up
-- every subsystem as often as it was made. It has started a task for each function that was asked for,
-- once however often that was, and for no other, and has killed each once. No tree of Zygotes was
-- cleaned up while a function was left, and no pool, directory or trace while a function or a tree was.
pub session_ends :
    (c : Conf) (fs : List ℕ) (m : LambdaMgr) (s : Subsystem) (g : ℕ)
    → new_lambda_mgr c ≡ returns m
    → (m' : LambdaMgr) × (past : List Act) × (get_all fs m ≡ some m')
      × (cleanup m' ≡ some past)
      × (created_count s past ≡ cleaned_count s past)
      × (started_count g past ≡ bit (elem g fs))
      × (killed_count g past ≡ bit (elem g fs))
      × (in_order past ≡ true)
session_ends c fs m s g e =
    let fine = subst (Clean s g) e (new_lambda_mgr-Clean s g c) in
    let (no_map, unlocked, none_killed) = subst (Fresh g) e (new_lambda_mgr-Fresh g c) in
    let (m', asked, h) =
      get_all-Serving s g fs false m (start-Serving s g m fine no_map unlocked none_killed) in
    let (past, done, ended) = cleanup-Ended s g m'.provider m' refl h.kept h.sound in
    let begun = ended.begun ∙ h.begun in
    (m', past, asked, done, ended.systems, begun, sym ended.tasks ∙ begun, ended.order)
