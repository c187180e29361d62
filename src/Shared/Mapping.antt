-- ===== src/Shared/Mapping.antt =====
-- Go maps with keys that are numbers (hashes, accounts, ids). The program never ranges over the
-- maps that are modelled, so a map is its lookup function.
use Prim.Native.Nat.{ℕ}
use mathlib.Core.Option.{Option, none, some}
use koala_tblockchain_golang.Shared.Tests.{◌==◌, if◌then◌else◌}

abbrev pub Mapping {ℓ} : Type ℓ → Type ℓ
Mapping V = ℕ → Option V

module _ {ℓ} {V : Type ℓ} where
  abbrev pub empty : Mapping V
  empty k = none

  -- m[k] = v
  abbrev pub put : Mapping V → ℕ → V → Mapping V
  put m k v j = if k == j then some v else m j

  -- delete(m, k)
  abbrev pub delete : Mapping V → ℕ → Mapping V
  delete m k j = if k == j then none else m j
