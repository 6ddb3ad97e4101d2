-- ===== src/Steps/Ownership.antt =====
-- internal/steps/ownership.go: what the cluster held before an install. What helm, the API server and
-- the decoding of `recipe.json` answer are parameters.
use Prim.Native.String.{compare}
use text.Mathlib.Text.{is_lt}
use aicrme.Prelude.{
  String, str_append, str_eq, Bool, true, false, ◌&&◌, List, [], ◌∷◌, ◌++◌, Option, none, some,
  if◌then◌else◌, map, member,
}
use aicrme.Engine.Run.{ReleaseRef, NamespaceRef, Ownership}

-- What `List` and `Get` answer; an error is its text.
pub data Listing : Type 0 where
  releases_listed : List String → Listing
  list_failed : String → Listing

pub data Presence : Type 0 where
  present absent : Presence
  get_failed : String → Presence

-- The two clients. `none` stands for a process that lacks one of them.
pub record Cluster : Type 0 where
  pub list : String → Listing
  pub get : String → Presence

-- `slices.Sort` and `slices.Compact`; strings are compared byte by byte.
abbrev pub str_lt : String → String → Bool
str_lt a b = is_lt (compare a b)

unfoldable pub insert_name : String → List String → List String
insert_name a [] = a ∷ []
insert_name a (b ∷ names) =
    let rest = insert_name a names in if str_lt b a then b ∷ rest else a ∷ b ∷ names

unfoldable pub sort_names : List String → List String
unfolding insert_name
sort_names [] = []
sort_names (a ∷ names) = insert_name a (sort_names names)

unfoldable pub compact : List String → List String
compact [] = []
compact (a ∷ []) = a ∷ []
compact (a ∷ b ∷ names) = let rest = compact (b ∷ names) in if str_eq a b then rest else a ∷ rest

abbrev pub namespace_ref : String → Bool → String → NamespaceRef
namespace_ref name existed err = record { name = name; existed = existed; snapshot_err = err }

abbrev pub no_client_err : String
no_client_err = "no cluster client in this process, so nothing could be observed"

unfoldable pub snapshot_present : String → List String → Presence → List String × NamespaceRef
snapshot_present ns names present = (names, namespace_ref ns true "")
snapshot_present ns names absent = (names, namespace_ref ns false "")
snapshot_present ns names (get_failed err) =
    ([], namespace_ref ns false (str_append "reading the namespace failed: " err))

unfoldable pub snapshot_listed : Cluster → String → Listing → List String × NamespaceRef
unfolding snapshot_present sort_names
snapshot_listed cluster ns (list_failed err) =
    ([], namespace_ref ns false (str_append "listing helm releases failed: " err))
snapshot_listed cluster ns (releases_listed names) =
    snapshot_present ns (sort_names names) (cluster.get ns)

unfoldable pub snapshot_namespace : Option Cluster → String → List String × NamespaceRef
unfolding snapshot_listed
snapshot_namespace none ns = ([], namespace_ref ns false no_client_err)
snapshot_namespace (some cluster) ns = snapshot_listed cluster ns (cluster.list ns)

abbrev pub release_in : String → String → ReleaseRef
release_in ns name = record { name = name; namespace = ns }

unfoldable pub snapshot_each : Option Cluster → List String → Ownership
unfolding snapshot_namespace
snapshot_each cluster [] = record { releases = []; namespaces = [] }
snapshot_each cluster (ns ∷ names) =
    let (found, ref) = snapshot_namespace cluster ns in
    let rest = snapshot_each cluster names in
    record {
      releases = map (release_in ns) found ++ rest.releases;
      namespaces = ref ∷ rest.namespaces;
    }

unfoldable pub snapshot_ownership : Option Cluster → List String → Ownership
unfolding sort_names compact snapshot_each
snapshot_ownership cluster namespaces = snapshot_each cluster (compact (sort_names namespaces))

unfoldable pub unsnapshotted : List NamespaceRef → List String
unsnapshotted [] = []
unsnapshotted (ns ∷ refs) =
    let rest = unsnapshotted refs in if str_eq ns.snapshot_err "" then rest else ns.name ∷ rest

-- One row of the `components` of `recipe.json`.
pub record RecipeComponent : Type 0 where
  pub name : String
  pub namespace : String

unfoldable pub recipe_namespaces : Option (List RecipeComponent) → List String
recipe_namespaces none = []
recipe_namespaces (some []) = []
recipe_namespaces (some (c ∷ components)) =
    let rest = recipe_namespaces (some components) in
    if str_eq c.namespace "" then rest else c.namespace ∷ rest

-- The set of names that `recipeReleaseNames` makes, as a list.
unfoldable pub recipe_release_names : Option (List RecipeComponent) → List String
recipe_release_names none = []
recipe_release_names (some []) = []
recipe_release_names (some (c ∷ components)) =
    let rest = recipe_release_names (some components) in
    if str_eq c.name "" then rest else c.name ∷ rest

-- `reinstallHazards`
abbrev pub is_hazard : String → Bool
is_hazard name = str_eq name "kai-scheduler"

unfoldable pub already_installed : List ReleaseRef → List String → List ReleaseRef
already_installed [] names = []
already_installed (r ∷ refs) names =
    let rest = already_installed refs names in
    if member r.name names && is_hazard r.name then r ∷ rest else rest
