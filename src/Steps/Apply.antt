-- ===== src/Steps/Apply.antt =====
-- internal/steps/apply.go: what `Run` does before the bundle is applied, and the rows of the components.
pub mod Rows
pub mod Refusal
use aicrme.Prelude.{
  ℕ, String, str_eq, Bool, true, false, List, [], ◌∷◌, Option, none, some, ◌==◌, if◌then◌else◌,
  find,
}
use aicrme.Engine.Run.{Run, ComponentState, ReleaseRef, Ownership}
use aicrme.Steps.Ownership.{
  Cluster, RecipeComponent, snapshot_ownership, recipe_namespaces, recipe_release_names,
  already_installed, unsnapshotted,
}

-- How far `Run` comes: an error with the run as it leaves it, or the call of the applier, with the
-- namespaces that it warns of.
pub data Begun : Type 0 where
  no_bundle : Begun
  clashes : Run → List ReleaseRef → Begun
  installs : Run → List String → Begun

-- `string(run.Artifacts["bundle.path"])`
abbrev pub bundle_path : Run → String
bundle_path r = elim (find "bundle.path" r.artifacts) [ none ↦ "" | some path ↦ path ]

abbrev pub is_first : Ownership → Bool
is_first own = elim own.namespaces [ [] ↦ true | ns ∷ refs ↦ false ]

unfoldable pub unless_clash : Run → List ReleaseRef → Begun
unfolding unsnapshotted
unless_clash r [] = installs r (unsnapshotted r.ownership.namespaces)
unless_clash r (clash ∷ rest) = clashes r (clash ∷ rest)

unfoldable pub begin_first : List String → Run → Begun
unfolding already_installed unless_clash
begin_first names r = unless_clash r (already_installed r.ownership.releases names)

-- `recipe` is what `json.Unmarshal` makes of the artifact `recipe.json`.
unfoldable pub begin_apply : Option Cluster → Option (List RecipeComponent) → Run → Begun
unfolding begin_first snapshot_ownership recipe_namespaces recipe_release_names unsnapshotted
begin_apply cluster recipe r =
    if str_eq (bundle_path r) ""
    then no_bundle
    else if is_first r.ownership
    then begin_first (recipe_release_names recipe)
        (record r { ownership = snapshot_ownership cluster (recipe_namespaces recipe) })
    else installs r (unsnapshotted r.ownership.namespaces)

-- `applier.ComponentData`, as far as `upsertComponent` reads it.
pub record ComponentData : Type 0 where
  pub name : String
  pub namespace : String
  pub index : ℕ
  pub total : ℕ
  pub status : String

abbrev pub updated_row : ComponentData → ComponentState → ComponentState
updated_row d row = record row {
  status = d.status;
  index = if d.index == 0 then row.index else d.index;
  total = if d.total == 0 then row.total else d.total;
  namespace = if str_eq d.namespace "" then row.namespace else d.namespace;
}

abbrev pub new_row : ComponentData → ComponentState
new_row d = record {
  name = d.name;
  index = d.index;
  total = d.total;
  namespace = d.namespace;
  status = d.status;
}

unfoldable pub upsert_component : ComponentData → List ComponentState → List ComponentState
upsert_component d [] = new_row d ∷ []
upsert_component d (row ∷ rows) =
    let rest = upsert_component d rows in
    if str_eq row.name d.name then updated_row d row ∷ rows else row ∷ rest

-- `trackComponents` on one component event, whose payload may not decode.
unfoldable pub track_component : Option ComponentData → List ComponentState → List ComponentState
unfolding upsert_component
track_component none rows = rows
track_component (some d) rows = if str_eq d.name "" then rows else upsert_component d rows
