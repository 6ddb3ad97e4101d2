-- ===== src/Steps/Bundle.antt =====
-- internal/steps/bundle.go: the recipe that is resolved again against the one that was approved. JSON and
-- the printing of numbers are parameters; the names of the fields stand without quotation marks.
pub mod Approved
use aicrme.Prelude.{
  ℕ, ◌+◌, String, str_append, str_eq, not, ◌&&◌, List, [], ◌∷◌, ◌++◌, Option, none, some, ◌==◌,
  if◌then◌else◌, length,
}

-- The fields that `componentDrift` compares.
pub record Component : Type 0 where
  pub name : String
  pub kind : String
  pub version : String
  pub namespace : String
  pub chart : String
  pub source : String

-- Of the resolved recipe, or of the summary that was approved.
pub record Recipe : Type 0 where
  pub name : String
  pub version : String
  pub components : List Component

-- The closure `add`.
unfoldable pub add_diff : String → String → String → List String → List String
add_diff field got want diffs =
    if str_eq got want
    then diffs
    else diffs
      ++ str_append field (str_append " " (str_append got (str_append " != approved " want))) ∷ []

-- `strings.Join(diffs, "; ")`
unfoldable pub join_diffs : List String → String
join_diffs [] = ""
join_diffs (a ∷ []) = a
join_diffs (a ∷ b ∷ rest) = str_append a (str_append "; " (join_diffs (b ∷ rest)))

unfoldable pub diffs_of : Component → Component → List String
unfolding add_diff
diffs_of c a = add_diff "source" c.source a.source (
    add_diff "chart" c.chart a.chart (
      add_diff "namespace" c.namespace a.namespace (
        add_diff "version" c.version a.version
          (add_diff "kind" c.kind a.kind (add_diff "name" c.name a.name [])))))

unfoldable pub component_drift : Component → Component → String
unfolding diffs_of join_diffs
component_drift c a = join_diffs (diffs_of c a)

abbrev drifted : String
drifted = "re-resolved recipe drifted from the approved one: "

module _ (itoa : ℕ → String) where
  -- The loop over the components, `i` being the position; the two lists are of one length.
  unfoldable pub first_drift : ℕ → List Component → List Component → Option String
  unfolding component_drift
  first_drift i [] approved = none
  first_drift i (c ∷ cs) [] = none
  first_drift i (c ∷ cs) (a ∷ approved) =
      let rest = first_drift (i + 1) cs approved in
      let diff = component_drift c a in
      if not (str_eq diff "")
      then some (
          str_append "re-resolved recipe drifted from the approved one at position "
            (str_append (itoa i) (str_append " (" (str_append c.name (str_append "): " diff)))))
      else rest

  -- `assertMatchesApproved`, `none` when it returns nil; `approved` is what the stored artifact decodes to.
  unfoldable pub assert_matches_approved : Recipe → Option Recipe → Option String
  unfolding first_drift
  assert_matches_approved result none = some "stored recipe.json is unparseable"
  assert_matches_approved result (some a) =
      if not (str_eq result.name a.name && str_eq result.version a.version)
      then some (
          str_append drifted (
            str_append "recipe " (
              str_append result.name (
                str_append " " (
                  str_append result.version
                    (str_append ", approved " (str_append a.name (str_append " " a.version))))))))
      else if not (length result.components == length a.components)
      then some (
          str_append drifted (
            str_append "component count " (
              str_append (itoa (length result.components))
                (str_append ", approved " (itoa (length a.components))))))
      else first_drift 0 result.components a.components
