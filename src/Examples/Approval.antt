-- ===== src/Examples/Approval.antt =====
-- internal/steps/bundle.go at concrete inputs.
use aicrme.Prelude.{ℕ, ◌≡◌, ◌↔◌, refl, String, [], ◌∷◌, none, some}
use aicrme.Steps.Bundle.{Component, Recipe, component_drift, assert_matches_approved}
use aicrme.Steps.Bundle.Approved.{assert_matches_approved_lem}

abbrev operator : Component
operator = record {
  name = "gpu-operator";
  kind = "Helm";
  version = "v26.3.3";
  namespace = "gpu";
  chart = "gpu-operator";
  source = "oci://x";
}

abbrev recipe : Recipe
recipe = record { name = "h100"; version = "1"; components = operator ∷ [] }

abbrev digit : ℕ → String
digit n = "0"

assert_matches_approved_lem_example :
    (assert_matches_approved digit recipe (some recipe) ≡ none) ↔ (some recipe ≡ some recipe)
assert_matches_approved_lem_example = assert_matches_approved_lem digit recipe (some recipe)

two_fields :
    component_drift (record operator { version = "v27"; chart = "other" }) operator
    ≡ "version v27 != approved v26.3.3; chart other != approved gpu-operator"
unfolding component_drift
two_fields = refl
