-- ===== src/ImportCache.antt =====
-- go/worker/lambda/zygote/importCache.go: the tree of Zygotes. A package is known by a number.
pub mod Lookup
pub mod Zygote
pub mod RefCount
pub mod Tries
mod Tests
use open_lambda.Prelude.{
  ℕ, Bool, true, false, List, [], ◌∷◌, ◌++◌, Option, none, some, if◌then◌else◌, elem,
}

-- `ImportCacheNode`, as far as the configuration and `recursiveInit` decide it: a name, the packages,
-- those of the ancestors, and the children.
mutual
  pub data Node : Type 0 where
    node : ℕ → List ℕ → List ℕ → Children → Node

  pub data Children : Type 0 where
    no_child : Children
    child : Node → Children → Children

abbrev pub packages : Node → List ℕ
packages (node name own indirect cs) = own

abbrev pub children : Node → Children
children (node name own indirect cs) = cs

abbrev pub all_packages : Node → List ℕ
all_packages (node name own indirect cs) = indirect ++ own

unfoldable mutual
  pub recursive_init : Node → List ℕ → Node
  recursive_init (node name own _ cs) indirect =
      node name own indirect (init_children cs (indirect ++ own))

  pub init_children : Children → List ℕ → Children
  init_children no_child indirect = no_child
  init_children (child c cs) indirect =
      child (recursive_init c indirect) (init_children cs indirect)

-- Every package of a list is wanted.
abbrev pub covered : List ℕ → List ℕ → Bool
covered [] wanted = true
covered (p ∷ ps) wanted = if elem p wanted then covered ps wanted else false

-- The first result that is not nil.
abbrev pub or_else : Option Node → Option Node → Option Node
or_else (some found) rest = some found
or_else none rest = rest

unfoldable mutual
  pub lookup : Node → List ℕ → Option Node
  lookup (node name own indirect cs) wanted =
      if covered own wanted
      then or_else (lookup_children cs wanted) (some (node name own indirect cs))
      else none

  pub lookup_children : Children → List ℕ → Option Node
  lookup_children no_child wanted = none
  lookup_children (child c cs) wanted = or_else (lookup c wanted) (lookup_children cs wanted)

abbrev pub is_empty : List ℕ → Bool
is_empty [] = true
is_empty (p ∷ ps) = false

-- The end of `NewImportCache`: a root that imports packages is an error.
unfoldable pub new_import_cache : Node → Option Node
unfolding recursive_init
new_import_cache root = if is_empty (packages root) then some (recursive_init root []) else none
