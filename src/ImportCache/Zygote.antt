-- ===== src/ImportCache/Zygote.antt =====
-- The Zygote of one node (`getSandboxInNode`, `putSandboxInNode` and `createChildSandboxFromNode` of
-- go/worker/lambda/zygote/importCache.go). A sandbox is known by a number. What the sandboxes and the
-- pool answer is an argument; the call that creates a sandbox may go up the tree, node by node.
use open_lambda.Prelude.{
  ℕ, ◌+◌, ◌-◌, Bool, true, false, List, [], ◌∷◌, ◌++◌, Option, none, some, if◌then◌else◌, ◌==◌,
}

-- `sb` and `sbRefCount` of a node.
pub record Zygote : Type 0 where
  pub sb : Option ℕ
  pub sb_ref_count : ℕ

pub data Effect : Type 0 where
  destroyed unpaused paused created : ℕ → Effect

-- `forceNew` takes the old sandbox out of the node.
unfoldable pub discard : Bool → Zygote → Zygote × List Effect
discard false z = (z, [])
discard true z = elim z.sb [
  | none ↦ (z, [])
  | some old ↦ (record z { sb = none }, destroyed old ∷ [])
]

-- The sandbox and whether it is new; `none` is an error.
abbrev pub Got : Type 0
Got = Zygote × List Effect × Option (ℕ × Bool)

-- The fast path, on a node that has sandbox `b`; `ok` is what `Unpause` answers.
unfoldable pub fast_path : ℕ → Bool → Zygote → Got
fast_path b ok z =
    if z.sb_ref_count == 0
    then (if ok
        then (record z { sb_ref_count = z.sb_ref_count + 1 }, unpaused b ∷ [], some (b, false))
        else (record z { sb = none }, [], none))
    else (record z { sb_ref_count = z.sb_ref_count + 1 }, [], some (b, false))

-- The slow path; `answer` is the sandbox that `createSandboxInNode` made.
unfoldable pub slow_path : Option ℕ → Zygote → Got
slow_path none z = (z, [], none)
slow_path (some b) z = (record { sb = some b; sb_ref_count = 1 }, created b ∷ [], some (b, true))

unfoldable pub get_inner : Bool → Option ℕ → Zygote → Got
unfolding fast_path slow_path
get_inner ok answer z = elim z.sb [ some b ↦ fast_path b ok z | none ↦ slow_path answer z ]

unfoldable pub get_sandbox_in_node : Bool → Bool → Option ℕ → Zygote → Got
unfolding discard get_inner
get_sandbox_in_node force_new ok answer z =
    let (z', gone) = discard force_new z in
    let (z'', effects, got) = get_inner ok answer z' in (z'', gone ++ effects, got)

-- Is `b` the sandbox of the node?
abbrev pub holds : Option ℕ → ℕ → Bool
holds none b = false
holds (some a) b = a == b

-- `ok` is what `Pause` answers; `none` is the panic on a negative count.
unfoldable pub put_sandbox_in_node : ℕ → Bool → Zygote → Option (Zygote × List Effect)
put_sandbox_in_node b ok z =
    if holds z.sb b
    then (if z.sb_ref_count == 0
        then none
        else (if z.sb_ref_count == 1
            then (if ok
                then some (record z { sb_ref_count = 0 }, paused b ∷ [])
                else some (record { sb = none; sb_ref_count = 0 }, []))
            else some (record z { sb_ref_count = z.sb_ref_count - 1 }, [])))
    else some (z, [])
