-- ===== src/LambdaManager/Acts.antt =====
-- go/worker/lambda/lambdaManager.go: what the acts of a manager leave, and what it holds.
use open_lambda.Prelude.{
  ℕ, suc, ◌+◌, ◌-◌, ◌≡◌, refl, Bool, true, false, ◌&&◌, List, [], ◌∷◌, arith, if◌then◌else◌, ◌==◌,
  ltb, count, length,
}
use open_lambda.LambdaManager.{
  Subsystem, code_dirs, scratch_dirs, sb_pool, dep_tracer, tree, Act, created, cleaned, started,
  killed, Provider, absent, typed_nil, trees, LambdaMgr,
}

abbrev pub same_subsystem : Subsystem → Subsystem → Bool
same_subsystem code_dirs code_dirs = true
same_subsystem scratch_dirs scratch_dirs = true
same_subsystem sb_pool sb_pool = true
same_subsystem dep_tracer dep_tracer = true
same_subsystem (tree i) (tree j) = i == j
same_subsystem s t = false

-- How often a subsystem was made, and cleaned up; a function, started, and killed.
abbrev pub created_count : Subsystem → List Act → ℕ
created_count s [] = 0
created_count s (created t ∷ past) =
    let n = created_count s past in if same_subsystem s t then suc n else n
created_count s (cleaned t ∷ past) = created_count s past
created_count s (started f ∷ past) = created_count s past
created_count s (killed f ∷ past) = created_count s past

abbrev pub cleaned_count : Subsystem → List Act → ℕ
cleaned_count s [] = 0
cleaned_count s (created t ∷ past) = cleaned_count s past
cleaned_count s (cleaned t ∷ past) =
    let n = cleaned_count s past in if same_subsystem s t then suc n else n
cleaned_count s (started f ∷ past) = cleaned_count s past
cleaned_count s (killed f ∷ past) = cleaned_count s past

abbrev pub started_count : ℕ → List Act → ℕ
started_count g [] = 0
started_count g (created t ∷ past) = started_count g past
started_count g (cleaned t ∷ past) = started_count g past
started_count g (started f ∷ past) = let n = started_count g past in if f == g then suc n else n
started_count g (killed f ∷ past) = started_count g past

abbrev pub killed_count : ℕ → List Act → ℕ
killed_count g [] = 0
killed_count g (created t ∷ past) = killed_count g past
killed_count g (cleaned t ∷ past) = killed_count g past
killed_count g (started f ∷ past) = killed_count g past
killed_count g (killed f ∷ past) = let n = killed_count g past in if f == g then suc n else n

-- How many functions run and trees stand.
abbrev pub dependants : List Act → ℕ
dependants [] = 0
dependants (created code_dirs ∷ past) = dependants past
dependants (created scratch_dirs ∷ past) = dependants past
dependants (created sb_pool ∷ past) = dependants past
dependants (created dep_tracer ∷ past) = dependants past
dependants (created (tree i) ∷ past) = suc (dependants past)
dependants (cleaned code_dirs ∷ past) = dependants past
dependants (cleaned scratch_dirs ∷ past) = dependants past
dependants (cleaned sb_pool ∷ past) = dependants past
dependants (cleaned dep_tracer ∷ past) = dependants past
dependants (cleaned (tree i) ∷ past) = dependants past - 1
dependants (started f ∷ past) = suc (dependants past)
dependants (killed f ∷ past) = dependants past - 1

-- How many functions run.
abbrev pub running : List Act → ℕ
running [] = 0
running (created t ∷ past) = running past
running (cleaned t ∷ past) = running past
running (started f ∷ past) = suc (running past)
running (killed f ∷ past) = running past - 1

-- No function is left when a tree is cleaned up, and no function and no tree when the pool, a directory
-- or the trace is.
abbrev pub in_order : List Act → Bool
in_order [] = true
in_order (created s ∷ past) = in_order past
in_order (cleaned code_dirs ∷ past) = dependants past == 0 && in_order past
in_order (cleaned scratch_dirs ∷ past) = dependants past == 0 && in_order past
in_order (cleaned sb_pool ∷ past) = dependants past == 0 && in_order past
in_order (cleaned dep_tracer ∷ past) = dependants past == 0 && in_order past
in_order (cleaned (tree i) ∷ past) = running past == 0 && in_order past
in_order (started f ∷ past) = in_order past
in_order (killed f ∷ past) = in_order past

abbrev pub bit : Bool → ℕ
bit true = 1
bit false = 0

abbrev pub tree_bit : ℕ → ℕ → ℕ
tree_bit i n = if ltb i n then 1 else 0

abbrev pub tree_held : ℕ → Provider → ℕ
tree_held i absent = 0
tree_held i typed_nil = 0
tree_held i (trees n) = tree_bit i n

abbrev pub trees_held : Provider → ℕ
trees_held absent = 0
trees_held typed_nil = 0
trees_held (trees n) = n

abbrev pub held : Subsystem → LambdaMgr → ℕ
held code_dirs m = bit m.codes
held scratch_dirs m = bit m.scratches
held sb_pool m = bit m.pool
held dep_tracer m = bit m.tracer
held (tree i) m = tree_held i m.provider

-- What the manager holds is what was made and not cleaned up yet.
pub record Kept (s : Subsystem) (g : ℕ) (m : LambdaMgr) : Type 0 where
  pub systems : created_count s m.acts ≡ cleaned_count s m.acts + held s m
  pub tasks : started_count g m.acts ≡ killed_count g m.acts + count g m.lfunc_map
  pub alive : dependants m.acts ≡ length m.lfunc_map + trees_held m.provider
  pub functions : running m.acts ≡ length m.lfunc_map
  pub order : in_order m.acts ≡ true

-- Nothing is left, and it went in order; `n` is how often the function was started.
pub record Ended (s : Subsystem) (g n : ℕ) (past : List Act) : Type 0 where
  pub begun : started_count g past ≡ n
  pub systems : created_count s past ≡ cleaned_count s past
  pub tasks : started_count g past ≡ killed_count g past
  pub order : in_order past ≡ true

abbrev pub below : Subsystem → ℕ → ℕ
below code_dirs n = 0
below scratch_dirs n = 0
below sb_pool n = 0
below dep_tracer n = 0
below (tree i) n = tree_bit i n

-- The trees apart from the rest.
abbrev pub tree_held_of : Subsystem → LambdaMgr → ℕ
tree_held_of code_dirs m = 0
tree_held_of scratch_dirs m = 0
tree_held_of sb_pool m = 0
tree_held_of dep_tracer m = 0
tree_held_of (tree i) m = tree_held i m.provider

pub gone_all :
    (s : Subsystem) (m : LambdaMgr) (n0 n1 n2 n3 n4 : ℕ)
    → n1 ≡ n0 + (if same_subsystem s sb_pool then bit m.pool else 0)
    → n2 ≡ n1 + (if same_subsystem s dep_tracer then bit m.tracer else 0)
    → n3 ≡ n2 + (if same_subsystem s code_dirs then bit m.codes else 0)
    → n4 ≡ n3 + (if same_subsystem s scratch_dirs then bit m.scratches else 0)
    → n4 + tree_held_of s m ≡ n0 + held s m
gone_all code_dirs m n0 n1 n2 n3 n4 a b c d = omega (arith, a, b, c, d)
gone_all scratch_dirs m n0 n1 n2 n3 n4 a b c d = omega (arith, a, b, c, d)
gone_all sb_pool m n0 n1 n2 n3 n4 a b c d = omega (arith, a, b, c, d)
gone_all dep_tracer m n0 n1 n2 n3 n4 a b c d = omega (arith, a, b, c, d)
gone_all (tree i) m n0 n1 n2 n3 n4 a b c d = omega (arith, a, b, c, d)

-- A subsystem that is no tree.
abbrev pub single : Subsystem → Bool
single code_dirs = true
single scratch_dirs = true
single sb_pool = true
single dep_tracer = true
single (tree i) = false

pub below-tree :
    (s : Subsystem) (n : ℕ) → below s (suc n) ≡ below s n + bit (same_subsystem s (tree n))
below-tree code_dirs n = refl
below-tree scratch_dirs n = refl
below-tree sb_pool n = refl
below-tree dep_tracer n = refl
below-tree (tree i) n = ground arith
