-- ===== src/Examples/Watch.antt =====
-- internal/observer/pods.go, events.go and handlers.go at concrete inputs.
use mathlib.Core.Option.{some-injective}
use aicrme.Prelude.{◌≡◌, refl, subst, str_eq, true, false, List, [], ◌∷◌, ◌++◌, none, some, arith}
use aicrme.Observer.Pods.{StateKey, ContainerStatus, StatusCondition, Pod, pod_key, pod_trouble}
use aicrme.Observer.Events.{Warning, event_involved_key, controller_event_key}
use aicrme.Observer.Conditions.{Memory, is_well}
use aicrme.Observer.Tracked.{tracked, of_resource, key_eq}
use aicrme.Observer.Conditions.Sweep.{outstanding}
use aicrme.Observer.Conditions.Recovery.{
  Sight, pod_seen, event_seen, event_checked, handle, watch, recovery_settles,
}
use aicrme.Observer.Conditions.Expiry.{expires, expired_warning_strands}

abbrev pod_with : List StatusCondition → List ContainerStatus → Pod
pod_with conditions containers = record {
  namespace = "gpu";
  name = "driver";
  uid = "u1";
  conditions = conditions;
  init_containers = record { name = "init"; waiting = some "ErrImagePull" } ∷ [];
  containers = containers;
  controller = some (record { kind = "DaemonSet"; name = "driver"; uid = "u2" });
}

abbrev crashing : Pod
crashing = pod_with [] (record { name = "main"; waiting = some "CrashLoopBackOff" } ∷ [])

abbrev unplaced : Pod
unplaced =
    pod_with (record { type = "PodScheduled"; status = "False"; reason = "Unschedulable" } ∷ []) []

abbrev well : Pod
well = record crashing { init_containers = []; containers = [] }

abbrev mount_failed : Warning
mount_failed = record {
  type = "Warning";
  namespace = "gpu";
  reason = "FailedMount";
  involved_kind = "Pod";
  involved_namespace = "gpu";
  involved_name = "driver";
  involved_uid = "u1";
  container = "main";
}

abbrev start : Memory
start = record { pods = []; events = []; live = "gpu" ∷ []; torn_down = [] }

abbrev sights : List Sight
sights =
    pod_seen unplaced
    ∷ event_seen mount_failed
    ∷ pod_seen crashing
    ∷ event_checked mount_failed (some crashing)
    ∷ []

abbrev key : StateKey
key = record { kind = "Pod"; namespace = "gpu"; name = "driver"; uid = "u1" }

recovery_settles_example :
    outstanding key.uid "Unschedulable" false
      ((watch sights start).1 ++ (handle (pod_seen well) (watch sights start).0).1)
    ≡ false
unfolding pod_key event_involved_key tracked watch pod_trouble key_eq
recovery_settles_example =
    recovery_settles key "Unschedulable" sights well start
      ((λ q. refl), ((λ q. refl), ((λ q. refl), (tt, tt)))) (λ cond h. absurd (ground (arith, h)))
      refl refl refl

expired_warning_strands_example :
    outstanding "u1" "FailedMount" false (expires mount_failed none well start) ≡ true
unfolding pod_key event_involved_key tracked is_well of_resource controller_event_key pod_trouble
expired_warning_strands_example =
    expired_warning_strands mount_failed none well start refl refl refl refl refl refl
      (λ owner h. subst (λ o. str_eq o.uid "u1" ≡ false) (some-injective _ owner h) refl) refl
