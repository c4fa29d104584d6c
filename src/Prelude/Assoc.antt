-- ===== src/Prelude/Assoc.antt =====
-- Go's `map[string]V` as an association list with one entry for each key.
use Prim.Native.String.{String}
use mathlib.Core.Path.{◌≡◌, refl}
use mathlib.Core.Option.{Option, none, some}
use mathlib.Core.List.{List, [], ◌∷◌}
use native.Mathlib.Omega.{arith}
use text.Mathlib.TextEquality.{eq_iff}
use microgrid_cloud.Prelude.Tests.{◌==◌, if◌then◌else◌}

module _ {ℓ} {V : Type ℓ} where
  -- `v, ok := m[key]`.
  unfoldable pub entry : List (String × V) → String → Option V
  entry [] key = none
  entry ((k, v) ∷ rest) key = if k == key then some v else entry rest key

  -- `m[key] = v`.
  unfoldable pub assign : List (String × V) → String → V → List (String × V)
  assign [] key v = (key, v) ∷ []
  assign ((k, w) ∷ rest) key v = if k == key then (key, v) ∷ rest else (k, w) ∷ assign rest key v

  pub entry-assign :
      (m : List (String × V)) (key other : String) (v : V)
      → entry (assign m key v) other ≡ (if key == other then some v else entry m other)
  unfolding entry assign
  entry-assign [] key other v = refl
  entry-assign ((k, w) ∷ rest) key other v =
      ground (arith, eq_iff k key, eq_iff k other, eq_iff key other, entry-assign rest key other v)
