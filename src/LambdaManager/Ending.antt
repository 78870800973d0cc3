-- ===== src/LambdaManager/Ending.antt =====
-- go/worker/lambda/lambdaManager.go: what the acts of a manager leave, and the shut-down.
use open_lambda.Prelude.{
  ℕ, zero, suc, ◌+◌, ◌-◌, ◌≡◌, refl, ap, ◌∙◌, Bool, true, false, List, [], ◌∷◌, none, some, arith,
  if◌then◌else◌, count, length,
}
use open_lambda.LambdaManager.{
  Subsystem, code_dirs, scratch_dirs, sb_pool, dep_tracer, tree, Act, killed, Provider, absent,
  typed_nil, trees, LambdaMgr, clean_trees, kill_all, clean, clean_rest, cleanup, clean_provider,
}
use open_lambda.LambdaManager.Acts.{
  Kept, Ended, same_subsystem, created_count, cleaned_count, started_count, killed_count,
  dependants, running, in_order, bit, tree_held, trees_held, held, below, tree_held_of, gone_all,
  single, below-tree,
}

running-kill_all :
    (fs : List ℕ) (past : List Act) → running (kill_all fs past) ≡ running past - length fs
running-kill_all [] past = omega arith
running-kill_all (f ∷ fs) past = omega (arith, running-kill_all fs (killed f ∷ past))

pub running-clean_trees : (n : ℕ) (past : List Act) → running (clean_trees n past) ≡ running past
running-clean_trees zero past = refl
running-clean_trees (suc n) past = running-clean_trees n past

module _ (s : Subsystem) (g : ℕ) where
  kill_all_counts :
      (fs : List ℕ) (past : List Act)
      → (created_count s (kill_all fs past) ≡ created_count s past)
        × (cleaned_count s (kill_all fs past) ≡ cleaned_count s past)
        × (started_count g (kill_all fs past) ≡ started_count g past)
        × (killed_count g (kill_all fs past) ≡ killed_count g past + count g fs)
        × (dependants (kill_all fs past) ≡ dependants past - length fs)
        × (in_order (kill_all fs past) ≡ in_order past)
  kill_all_counts [] past = (refl, refl, refl, omega arith, omega arith, refl)
  kill_all_counts (f ∷ fs) past =
      let (made, cleaned_up, begun, ended, left, ordered) = kill_all_counts fs (killed f ∷ past) in
      (made, cleaned_up, begun, ground (arith, ended), omega (arith, left), ordered)

  pub clean_trees_counts :
      (n : ℕ) (past : List Act)
      → running past ≡ 0
      → (created_count s (clean_trees n past) ≡ created_count s past)
        × (cleaned_count s (clean_trees n past) ≡ cleaned_count s past + below s n)
        × (started_count g (clean_trees n past) ≡ started_count g past)
        × (killed_count g (clean_trees n past) ≡ killed_count g past)
        × (dependants (clean_trees n past) ≡ dependants past - n)
        × (in_order (clean_trees n past) ≡ in_order past)
  clean_trees_counts zero past idle = (refl, ground arith, refl, refl, omega arith, refl)
  clean_trees_counts (suc n) past idle =
      let (made, cleaned_up, begun, ended, left, ordered) = clean_trees_counts n past idle in
      let still : running (clean_trees n past) ≡ 0 = running-clean_trees n past ∙ idle in
      (
        made,
        ground (arith, cleaned_up, below-tree s n),
        begun,
        ended,
        omega (arith, left),
        ground (arith, still, ordered),
      )

  -- Cleaning up a subsystem on which nothing depends any more.
  clean_counts :
      (b : Bool) (t : Subsystem) (past : List Act)
      → single t ≡ true
      → dependants past ≡ 0
      → in_order past ≡ true
      → (created_count s (clean b t past) ≡ created_count s past)
        × (cleaned_count s (clean b t past)
            ≡ cleaned_count s past + (if same_subsystem s t then bit b else 0))
        × (started_count g (clean b t past) ≡ started_count g past)
        × (killed_count g (clean b t past) ≡ killed_count g past)
        × (dependants (clean b t past) ≡ 0)
        × (in_order (clean b t past) ≡ true)
  clean_counts false t past one none_left ordered =
      (refl, ground arith, refl, refl, none_left, ordered)
  clean_counts true code_dirs past one none_left ordered =
      (refl, ground arith, refl, refl, none_left, ground (arith, none_left, ordered))
  clean_counts true scratch_dirs past one none_left ordered =
      (refl, ground arith, refl, refl, none_left, ground (arith, none_left, ordered))
  clean_counts true sb_pool past one none_left ordered =
      (refl, ground arith, refl, refl, none_left, ground (arith, none_left, ordered))
  clean_counts true dep_tracer past one none_left ordered =
      (refl, ground arith, refl, refl, none_left, ground (arith, none_left, ordered))
  clean_counts true (tree i) past one none_left ordered = let bad : ⊥ = cc in elim bad [ ]

  -- What the manager holds besides the trees.
  rest_counts :
      (m : LambdaMgr) (past : List Act)
      → dependants past ≡ 0
      → in_order past ≡ true
      → (created_count s (clean_rest m past) ≡ created_count s past)
        × (cleaned_count s (clean_rest m past) + tree_held_of s m ≡ cleaned_count s past + held s m)
        × (started_count g (clean_rest m past) ≡ started_count g past)
        × (killed_count g (clean_rest m past) ≡ killed_count g past)
        × (in_order (clean_rest m past) ≡ true)
  rest_counts m past none_left ordered =
      let (made, gone, begun, ended, left, order) =
        clean_counts m.pool sb_pool past refl none_left ordered in
      let past1 = clean m.pool sb_pool past in
      let (made', gone', begun', ended', left', order') =
        clean_counts m.tracer dep_tracer past1 refl left order in
      let past2 = clean m.tracer dep_tracer past1 in
      let (made2, gone2, begun2, ended2, left2, order2) =
        clean_counts m.codes code_dirs past2 refl left' order' in
      let past3 = clean m.codes code_dirs past2 in
      let (made3, gone3, begun3, ended3, left3, order3) =
        clean_counts m.scratches scratch_dirs past3 refl left2 order2 in
      (
        made3 ∙ made2 ∙ made' ∙ made,
        gone_all s m (cleaned_count s past) (cleaned_count s past1) (cleaned_count s past2)
            (cleaned_count s past3) (cleaned_count s (clean_rest m past)) gone gone' gone2 gone3,
        begun3 ∙ begun2 ∙ begun' ∙ begun,
        ended3 ∙ ended2 ∙ ended' ∙ ended,
        order3,
      )

-- A manager that holds no nil pointer in an interface.
abbrev pub Sound : Provider → Type 0
Sound absent = Unit
Sound typed_nil = ⊥
Sound (trees n) = Unit

rest-Ended :
    (s : Subsystem) (g n : ℕ) (m : LambdaMgr)
    → trees_held m.provider ≡ n
    → tree_held_of s m ≡ below s n
    → Kept s g m
    → Ended s g
        (started_count g m.acts)
        (clean_rest m (clean_trees n (kill_all m.lfunc_map m.acts)))
rest-Ended s g n m some_trees here k =
    let (made, gone, begun, ended, left, ordered) = kill_all_counts s g m.lfunc_map m.acts in
    let past1 = kill_all m.lfunc_map m.acts in
    let (made', gone', begun', ended', left', ordered') =
      clean_trees_counts s g n past1
        (omega (arith, running-kill_all m.lfunc_map m.acts, k.functions)) in
    let past2 = clean_trees n past1 in
    let (made2, gone2, begun2, ended2, ordered2) =
      rest_counts s g m past2 (omega (arith, left', left, k.alive, some_trees))
        (ordered' ∙ ordered ∙ k.order) in
    record {
      begun = begun2 ∙ begun' ∙ begun;
      systems = omega (arith, made2, made', made, gone2, gone', gone, here, k.systems);
      tasks = omega (arith, begun2, begun', begun, ended2, ended', ended, k.tasks);
      order = ordered2;
    }

no_trees : (s : Subsystem) (m : LambdaMgr) → m.provider ≡ absent → tree_held_of s m ≡ below s 0
no_trees code_dirs m e = refl
no_trees scratch_dirs m e = refl
no_trees sb_pool m e = refl
no_trees dep_tracer m e = refl
no_trees (tree i) m e = ap (tree_held i) e ∙ ground arith

some_trees :
    (s : Subsystem) (n : ℕ) (m : LambdaMgr) → m.provider ≡ trees n → tree_held_of s m ≡ below s n
some_trees code_dirs n m e = refl
some_trees scratch_dirs n m e = refl
some_trees sb_pool n m e = refl
some_trees dep_tracer n m e = refl
some_trees (tree i) n m e = ap (tree_held i) e

pub cleanup-Ended :
    (s : Subsystem) (g : ℕ) (p : Provider) (m : LambdaMgr)
    → m.provider ≡ p
    → Kept s g m
    → Sound p
    → (past : List Act) × (cleanup m ≡ some past) × Ended s g (started_count g m.acts) past
unfolding cleanup
cleanup-Ended s g absent m e k sound =
    let past = kill_all m.lfunc_map m.acts in
    (
      clean_rest m past,
      ap (λ (p : Provider). clean_provider p m past) e,
      rest-Ended s g 0 m (ap trees_held e) (no_trees s m e) k,
    )
cleanup-Ended s g typed_nil m e k sound = elim sound [ ]
cleanup-Ended s g (trees n) m e k sound =
    let past = kill_all m.lfunc_map m.acts in
    (
      clean_rest m (clean_trees n past),
      ap (λ (p : Provider). clean_provider p m past) e,
      rest-Ended s g n m (ap trees_held e) (some_trees s n m e) k,
    )

pub cleanup_nil : (m : LambdaMgr) → m.provider ≡ typed_nil → cleanup m ≡ none
unfolding cleanup
cleanup_nil m e = ap (λ (p : Provider). clean_provider p m (kill_all m.lfunc_map m.acts)) e
