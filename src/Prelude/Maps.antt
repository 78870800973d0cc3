-- ===== src/Prelude/Maps.antt =====
-- Go's maps. A map that is only read, written and deleted by key is a function into `Option` or
-- into its zero value; one whose length or whose entries are used is a list of entries.
use Prim.Native.Nat.{ℕ}
use open_lambda.Prelude.Tests.{◌==◌, if◌then◌else◌}

module _ {ℓ} {V : Type ℓ} where
  -- `m[k] = v`
  abbrev pub update : (ℕ → V) → ℕ → V → ℕ → V
  update m k v j = if k == j then v else m j
