-- ===== src/Prelude/Table.antt =====
-- A database table with a text primary key, as an association list. `session.get` is `lookup`,
-- and a row that is added or written back is `insert`.
use Prim.Native.String.{String}
use mathlib.Core.Path.{◌≡◌, refl}
use mathlib.Core.Option.{Option, none, some}
use mathlib.Core.List.{List, [], ◌∷◌}
use native.Mathlib.Omega.{arith}
use text.Mathlib.Text.{◌==◌ as str_eq}
use text.Mathlib.TextEquality.{eq_iff}
use mine_intelligence.Prelude.Tests.{if◌then◌else◌}

abbrev pub Table {ℓ} : Type ℓ → Type ℓ
Table V = List (String × V)

module _ {ℓ} {V : Type ℓ} where
  unfoldable pub lookup : Table V → String → Option V
  lookup [] k = none
  lookup ((j, v) ∷ t) k = if str_eq j k then some v else lookup t k

  unfoldable pub insert : Table V → String → V → Table V
  insert [] k v = (k, v) ∷ []
  insert ((j, w) ∷ t) k v = if str_eq j k then (k, v) ∷ t else (j, w) ∷ insert t k v

  pub lookup-insert :
      (t : Table V) (k j : String) (v : V)
      → lookup (insert t k v) j ≡ (if str_eq k j then some v else lookup t j)
  unfolding lookup insert
  lookup-insert [] k j v = refl
  lookup-insert ((i, w) ∷ t) k j v =
      ground (arith, eq_iff k j, eq_iff i k, eq_iff i j, lookup-insert t k j v)
