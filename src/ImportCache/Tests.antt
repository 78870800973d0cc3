-- ===== src/ImportCache/Tests.antt =====
-- A root with a child for package 1, which has a child for package 2, and the Zygote of a node.
use open_lambda.Prelude.{◌≡◌, refl, true, false, List, [], ◌∷◌, none, some, arith}
use open_lambda.ImportCache.{
  Node, node, no_child, child, new_import_cache, all_packages, children, lookup, recursive_init,
  init_children,
}
use open_lambda.ImportCache.Lookup.{Wanted, AllUnwanted, lookup-new_import_cache}
use open_lambda.ImportCache.Zygote.{
  get_sandbox_in_node, get_inner, fast_path, slow_path, discard, put_sandbox_in_node,
}
use open_lambda.ImportCache.RefCount.{
  System, Event, gets, puts, step, run, Fits, Inv, new_system, run_counts,
}
use open_lambda.ImportCache.Tries.{Try, fork_failed}

abbrev config : Node
config =
    node 0 [] []
      (child (node 1 (1 ∷ []) [] (child (node 2 (2 ∷ []) [] no_child) no_child)) no_child)

abbrev tree : Node
tree =
    node 0 [] []
      (child (node 1 (1 ∷ []) [] (child (node 2 (2 ∷ []) (1 ∷ []) no_child) no_child)) no_child)

lookup-new_import_cache_example :
    (m : Node) × (lookup tree (2 ∷ 1 ∷ []) ≡ some m)
    × Wanted (all_packages m) (2 ∷ 1 ∷ [])
    × AllUnwanted (children m) (2 ∷ 1 ∷ [])
unfolding new_import_cache recursive_init init_children
lookup-new_import_cache_example = lookup-new_import_cache config tree (2 ∷ 1 ∷ []) refl

abbrev two_callers : List Event
two_callers = gets false true (some 7) ∷ gets false true none ∷ puts 7 true ∷ puts 7 true ∷ []

two_callers-Fits : Fits two_callers new_system
unfolding step get_sandbox_in_node get_inner fast_path slow_path discard put_sandbox_in_node
two_callers-Fits = (refl, (tt, (omega arith, (omega arith, tt))))

run_counts_example : (s : System) × (run two_callers new_system ≡ some s) × Inv s
run_counts_example = run_counts two_callers two_callers-Fits

abbrev failing : Try
failing = record {
  at_get = record { sb = some 7; sb_ref_count = 0 };
  unpause_ok = true;
  zygote_made = some 8;
  creation = fork_failed;
  at_put = record { sb = some 7; sb_ref_count = 1 };
  pause_ok = true;
}
