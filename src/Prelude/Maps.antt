-- ===== src/Prelude/Maps.antt =====
-- Go's maps with string keys, as association lists.
use Prim.Native.String.{String}
use mathlib.Core.Path.{◌≡◌, refl}
use mathlib.Core.Bool.{Bool, true, false}
use mathlib.Core.Option.{Option, none, some}
use mathlib.Core.List.{List, [], ◌∷◌}
use native.Mathlib.Omega.{arith}
use text.Mathlib.Text.{◌==◌ as str_eq}
use text.Mathlib.TextEquality.{eq_iff}
use aicrme.Prelude.Tests.{if◌then◌else◌, is_some}

module _ {ℓ} {V : Type ℓ} where
  unfoldable pub find : String → List (String × V) → Option V
  find k [] = none
  find k ((j, v) ∷ m) = if str_eq j k then some v else find k m

  -- `m[k] = v`
  unfoldable pub assign : String → V → List (String × V) → List (String × V)
  assign k v [] = (k, v) ∷ []
  assign k v ((j, w) ∷ m) = if str_eq j k then (k, v) ∷ m else (j, w) ∷ assign k v m

  -- `for k, v := range ds { m[k] = v }`
  unfoldable pub assign_all : List (String × V) → List (String × V) → List (String × V)
  unfolding assign
  assign_all [] m = m
  assign_all ((k, v) ∷ ds) m = assign_all ds (assign k v m)

  abbrev pub has_key : String → List (String × V) → Bool
  has_key k m = is_some (find k m)

  pub find-assign :
      (k j : String) (v : V) (m : List (String × V))
      → find j (assign k v m) ≡ (if str_eq k j then some v else find j m)
  unfolding find assign
  find-assign k j v [] = refl
  find-assign k j v ((i, w) ∷ m) =
      ground (arith, eq_iff k j, eq_iff i k, eq_iff i j, find-assign k j v m)

abbrev pub member : String → List String → Bool
member k [] = false
member k (j ∷ js) = if str_eq j k then true else member k js
