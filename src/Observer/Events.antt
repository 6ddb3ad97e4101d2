-- ===== src/Observer/Events.antt =====
-- internal/observer/events.go: the warnings of the API server, and how they are resolved.
use aicrme.Prelude.{
  String, Bool, true, false, not, ◌&&◌, List, [], ◌∷◌, Option, none, some, if◌then◌else◌,
}
use aicrme.Bus.Cluster.{ClusterData, warn}
use aicrme.Observer.Pods.{StateKey, Pod}
use aicrme.Observer.Tracked.{Tracked, of_resource, drop_resource}

-- A `corev1.Event`. `namespace` is its own, the `involved` fields are those of `InvolvedObject`, and
-- `container` is what `eventContainer` reads in its field path.
pub record Warning : Type 0 where
  pub type : String
  pub namespace : String
  pub reason : String
  pub involved_kind : String
  pub involved_namespace : String
  pub involved_name : String
  pub involved_uid : String
  pub container : String

unfoldable pub event_involved_key : Warning → StateKey
event_involved_key ev = record {
  kind = ev.involved_kind;
  namespace = ev.namespace;
  name = ev.involved_name;
  uid = ev.involved_uid;
}

unfoldable pub controller_event_key : Pod → Option StateKey
controller_event_key pod = elim pod.controller [
  | none ↦ none
  | some ref ↦
      some (record { kind = ref.kind; namespace = pod.namespace; name = ref.name; uid = ref.uid })
]

unfoldable pub event_cluster_data : Warning → ClusterData
event_cluster_data ev = record {
  kind = ev.involved_kind;
  namespace = ev.involved_namespace;
  name = ev.involved_name;
  uid = ev.involved_uid;
  container = ev.container;
  reason = ev.reason;
  ready = 0;
  desired = 0;
  severity = warn;
  resolved = false;
  at = 0;
}

pub record EventDedupe : Type 0 where
  pub narrated : Bool
  pub container : String

unfoldable pub event_resolution : StateKey → String → EventDedupe → ClusterData
event_resolution key reason cond = record {
  kind = key.kind;
  namespace = key.namespace;
  name = key.name;
  uid = key.uid;
  container = cond.container;
  reason = reason;
  ready = 0;
  desired = 0;
  severity = warn;
  resolved = true;
  at = 0;
}

unfoldable pub event_resolutions : StateKey → Bool → List (String × EventDedupe) → List ClusterData
unfolding event_resolution
event_resolutions key narrated_only [] = []
event_resolutions key narrated_only ((reason, cond) ∷ set) =
    let rest = event_resolutions key narrated_only set in
    if narrated_only && not cond.narrated then rest else event_resolution key reason cond ∷ rest

-- `resolveEventsLocked`
unfoldable pub resolve_events :
    StateKey → Bool → Tracked EventDedupe → List ClusterData × Tracked EventDedupe
unfolding event_resolutions of_resource drop_resource
resolve_events key narrated_only events =
    (event_resolutions key narrated_only (of_resource key events), drop_resource key events)
