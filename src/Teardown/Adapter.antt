-- ===== src/Teardown/Adapter.antt =====
-- internal/teardown/adapter.go: the teardown as the engine sees it.
use aicrme.Prelude.{false, String, str_append, str_eq, ◌&&◌, List, [], ◌∷◌, ◌++◌, map}
use aicrme.Engine.Run.{ComponentState, Ownership, ItemKind, ResidueItem}
use aicrme.Teardown.Purge.{Environment, ObjectOutcome, at_start}
use aicrme.Teardown.Releases.{ReleaseOutcome, releases}

unfoldable pub object_item : ObjectOutcome → ResidueItem
object_item o = record {
  kind = ItemKind.object;
  name = str_append o.resource (str_append "/" o.name);
  namespace = o.namespace;
  removed = str_eq o.err "";
  skip = "";
  created = false;
  err = o.err;
}

unfoldable pub release_item : ReleaseOutcome → ResidueItem
release_item o = record {
  kind = ItemKind.release;
  name = o.name;
  namespace = o.namespace;
  removed = str_eq o.skip "" && str_eq o.err "";
  skip = o.skip;
  created = false;
  err = o.err;
}

unfoldable pub outcome_items : ReleaseOutcome → List ResidueItem
unfolding release_item object_item
outcome_items o = release_item o ∷ map object_item o.objects

unfoldable pub all_items : List ReleaseOutcome → List ResidueItem
unfolding outcome_items
all_items [] = []
all_items (o ∷ out) = outcome_items o ++ all_items out

-- `defaultUninstallTimeout`
abbrev pub default_uninstall_timeout : String
default_uninstall_timeout = "5m0s"

-- `Engine.Releases`
unfoldable pub engine_releases : Environment → List ComponentState → Ownership → List ResidueItem
unfolding all_items releases
engine_releases env comps own =
    all_items (releases env default_uninstall_timeout comps own at_start).0
