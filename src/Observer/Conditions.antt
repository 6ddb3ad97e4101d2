-- ===== src/Observer/Conditions.antt =====
-- internal/observer/pods.go, events.go and handlers.go: what the observer narrates of pods and of the
-- warnings about them. Each handler reads and writes its maps under the observer's mutex, additions and
-- changes only while the namespace is watched. A definition is one section under the mutex, with what is
-- narrated of it once the mutex is released, in the order of the sections. `onEventChange` has two
-- sections, `event_noted` and `event_settled`, and other handlers may come in between. Narrations are
-- what is passed to `publish`, less their texts.
-- Go leaves open in which order the conditions of one resource are narrated; here it is the list's.
pub mod Sweep
pub mod Keeping
pub mod Recovery
pub mod Expiry
use aicrme.Prelude.{
  String, str_eq, Bool, true, false, not, ◌&&◌, List, [], ◌∷◌, ◌++◌, Option, none, some, member,
  if◌then◌else◌,
}
use aicrme.Bus.Cluster.{ClusterData}
use aicrme.Observer.Pods.{
  StateKey, Pod, Trouble, pod_key, pod_trouble, pod_reason_severity, kind_pod,
}
use aicrme.Observer.Tracked.{Tracked, tracked, track, of_resource, drop_resource, drop_reason}
use aicrme.Observer.Events.{
  Warning, EventDedupe, event_involved_key, controller_event_key, event_cluster_data,
  resolve_events,
}

-- `podCondition`
pub record PodCondition : Type 0 where
  pub reason : String
  pub detail : String
  pub container : String
  pub narrated : Bool

-- The maps `pods` and `events`, the namespaces that are watched and those that ever ceased to be.
pub record Memory : Type 0 where
  pub pods : Tracked PodCondition
  pub events : Tracked EventDedupe
  pub live : List String
  pub torn_down : List String

pub record Narration : Type 0 where
  pub ns : String
  pub cd : ClusterData

unfoldable pub pod_cluster_data : Pod → PodCondition → Bool → ClusterData
unfolding pod_reason_severity
pod_cluster_data pod cond resolved = record {
  kind = kind_pod;
  namespace = pod.namespace;
  name = pod.name;
  uid = pod.uid;
  container = cond.container;
  reason = cond.reason;
  ready = 0;
  desired = 0;
  severity = pod_reason_severity cond.reason;
  resolved = resolved;
  at = 0;
}

abbrev pub condition_of : Trouble → Bool → PodCondition
condition_of t narrated = record {
  reason = t.reason;
  detail = t.detail;
  container = t.container;
  narrated = narrated;
}

unfoldable pub seed_pod_baseline : Pod → Memory → Memory
unfolding pod_trouble pod_key track
seed_pod_baseline pod m = elim (pod_trouble pod) [
  | none ↦ m
  | some t ↦
      if member pod.namespace m.live
      then record m { pods = track (pod_key pod) t.reason (condition_of t false) m.pods }
      else m
]

unfoldable pub pod_resolutions : Pod → List (String × PodCondition) → List Narration
unfolding pod_cluster_data
pod_resolutions pod [] = []
pod_resolutions pod ((reason, cond) ∷ set) =
    record { ns = pod.namespace; cd = pod_cluster_data pod cond true } ∷ pod_resolutions pod set

unfoldable pub narrate : String → List ClusterData → List Narration
narrate ns [] = []
narrate ns (cd ∷ cds) = record { ns = ns; cd = cd } ∷ narrate ns cds

-- The warnings about the controller of a pod that is well.
unfoldable pub resolve_owner :
    Option StateKey → Tracked EventDedupe → List ClusterData × Tracked EventDedupe
unfolding resolve_events
resolve_owner none events = ([], events)
resolve_owner (some owner) events = resolve_events owner false events

unfoldable pub pod_recovered : Pod → Memory → Memory × List Narration
unfolding pod_key of_resource drop_resource resolve_events resolve_owner controller_event_key
    pod_resolutions narrate
pod_recovered pod m =
    let key = pod_key pod in
    let (own, others) = resolve_events key false m.events in
    let (owners, left) = resolve_owner (controller_event_key pod) others in
    (
      record m { pods = drop_resource key m.pods; events = left },
      pod_resolutions pod (of_resource key m.pods) ++ narrate pod.namespace (own ++ owners),
    )

unfoldable pub pod_arisen : Pod → Trouble → Memory → Memory × List Narration
unfolding pod_key track pod_cluster_data
pod_arisen pod t m =
    let arose = condition_of t true in
    (
      record m { pods = track (pod_key pod) t.reason arose m.pods },
      record { ns = pod.namespace; cd = pod_cluster_data pod arose false } ∷ [],
    )

-- Is this condition recorded already, for this container?
abbrev pub is_known : Option PodCondition → String → Bool
is_known none container = false
is_known (some existing) container = str_eq existing.container container

unfoldable pub pod_sighted : Pod → Option Trouble → Memory → Memory × List Narration
unfolding pod_recovered pod_arisen tracked
pod_sighted pod none m = pod_recovered pod m
pod_sighted pod (some t) m =
    if is_known (tracked (pod_key pod) t.reason m.pods) t.container
    then (m, [])
    else pod_arisen pod t m

unfoldable pub on_pod_change : Pod → Memory → Memory × List Narration
unfolding pod_sighted pod_trouble
on_pod_change pod m =
    if member pod.namespace m.live then pod_sighted pod (pod_trouble pod) m else (m, [])

unfoldable pub on_pod_add : Pod → Bool → Memory → Memory × List Narration
unfolding seed_pod_baseline on_pod_change
on_pod_add pod is_in_initial_list m =
    if is_in_initial_list && not (member pod.namespace m.torn_down)
    then (seed_pod_baseline pod m, [])
    else on_pod_change pod m

-- `onDelete` on a pod.
unfoldable pub narrated_set : List (String × PodCondition) → List (String × PodCondition)
narrated_set [] = []
narrated_set ((reason, cond) ∷ set) =
    let rest = narrated_set set in if cond.narrated then (reason, cond) ∷ rest else rest

unfoldable pub on_pod_delete : Pod → Memory → Memory × List Narration
unfolding pod_key of_resource drop_resource resolve_events narrated_set pod_resolutions narrate
on_pod_delete pod m =
    let key = pod_key pod in
    let (removed, left) = resolve_events key true m.events in
    (
      record m { pods = drop_resource key m.pods; events = left },
      pod_resolutions pod (narrated_set (of_resource key m.pods)) ++ narrate pod.namespace removed,
    )

abbrev pub is_warning : Warning → Bool
is_warning ev = str_eq ev.type "Warning"

unfoldable pub seed_event_baseline : Warning → Memory → Memory
unfolding event_involved_key track
seed_event_baseline ev m =
    if is_warning ev && member ev.namespace m.live
    then record m {
      events =
          track (event_involved_key ev) ev.reason
            (record { narrated = false; container = ev.container }) m.events;
    }
    else m

-- Is the pod, as the cache of its informer has it, there and well?
unfoldable pub is_well : Option Pod → Bool
unfolding pod_trouble
is_well none = false
is_well (some pod) = elim (pod_trouble pod) [ none ↦ true | some t ↦ false ]

abbrev pub is_seen : Option EventDedupe → Bool
is_seen none = false
is_seen (some cond) = true

-- Is this a warning that the first section of `onEventChange` narrates?
abbrev pub is_arising : Warning → Memory → Bool
unfolding tracked event_involved_key
is_arising ev m =
    is_warning ev
    && member ev.namespace m.live
    && not (is_seen (tracked (event_involved_key ev) ev.reason m.events))

-- The first section of `onEventChange`.
unfoldable pub event_noted : Warning → Memory → Memory × List Narration
unfolding event_involved_key track event_cluster_data tracked
event_noted ev m =
    if is_arising ev m
    then (
      record m {
        events =
            track (event_involved_key ev) ev.reason
              (record { narrated = true; container = ev.container }) m.events;
      },
      record { ns = ev.namespace; cd = event_cluster_data ev } ∷ [],
    )
    else (m, [])

-- What `onEventChange` does after it has narrated a warning: `current` is the answer of `currentPod`.
unfoldable pub event_settled : Warning → Option Pod → Memory → Memory × List Narration
unfolding event_involved_key resolve_events narrate is_well
event_settled ev current m =
    let key = event_involved_key ev in
    let (resolved, left) = resolve_events key false m.events in
    if str_eq key.kind kind_pod && is_well current
    then (record m { events = left }, narrate ev.namespace resolved)
    else (m, [])

-- `onEventChange` when no other handler comes in between its sections.
unfoldable pub on_event_change : Warning → Option Pod → Memory → Memory × List Narration
unfolding event_noted event_settled tracked event_involved_key
on_event_change ev current m =
    let (noted, arose) = event_noted ev m in
    let (left, resolved) = event_settled ev current noted in
    if is_arising ev m then (left, arose ++ resolved) else (m, [])

-- `onEventAdd`, up to the end of the first section of `onEventChange`.
unfoldable pub on_event_add : Warning → Bool → Memory → Memory × List Narration
unfolding seed_event_baseline event_noted
on_event_add ev is_in_initial_list m =
    if is_in_initial_list && not (member ev.namespace m.torn_down)
    then (seed_event_baseline ev m, [])
    else event_noted ev m

-- `onDelete` on an event.
unfoldable pub on_event_delete : Warning → Memory → Memory
unfolding drop_reason event_involved_key
on_event_delete ev m = record m { events = drop_reason (event_involved_key ev) ev.reason m.events }
