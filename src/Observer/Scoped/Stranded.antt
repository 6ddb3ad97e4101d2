-- ===== src/Observer/Scoped/Stranded.antt =====
-- internal/observer: nothing is remembered of a namespace that is no longer watched.
use aicrme.Prelude.{
  ◌≡◌, str_eq, Bool, true, false, not, ◌&&◌, List, [], ◌∷◌, Option, none, some, arith, member,
  Bool-cases, Option-cases, inl, inr,
}
use aicrme.Bus.Event.{Kind}
use aicrme.Observer.Pods.{StateKey, Pod, Trouble, pod_key, pod_trouble, kind_pod}
use aicrme.Observer.Tracked.{tracked, track, drop_resource}
use aicrme.Observer.Events.{
  Warning, EventDedupe, event_involved_key, controller_event_key, resolve_events,
}
use aicrme.Observer.Conditions.{
  Memory, resolve_owner, pod_recovered, pod_arisen, pod_sighted, is_known, on_pod_change,
  on_pod_add, seed_pod_baseline, on_pod_delete, event_noted, event_settled, on_event_add,
  seed_event_baseline, on_event_delete, is_warning, is_arising, is_well, condition_of,
}
use aicrme.Observer.Scoped.{Watcher, Wake, stop_closed, hub_closed, published, ticked, wake}
use aicrme.Observer.Scoped.Sweeps.{
  keys-track, keys-drop_resource, keys-drop_reason, watched, Tidy, reconcile-Tidy, stop-Tidy,
}

resolve_events-Tidy :
    (key : StateKey) (only : Bool) (m : Memory)
    → Tidy m
    → Tidy (record m { events = (resolve_events key only m.events).1 })
unfolding resolve_events
resolve_events-Tidy key only m t = record {
  pods = t.pods;
  events = keys-drop_resource (watched m.live) key m.events t.events;
}

resolve_owner-Tidy :
    (owner : Option StateKey) (m : Memory)
    → Tidy m
    → Tidy (record m { events = (resolve_owner owner m.events).1 })
unfolding resolve_owner
resolve_owner-Tidy none m t = record { pods = t.pods; events = t.events }
resolve_owner-Tidy (some key) m t = resolve_events-Tidy key false m t

swept-Tidy :
    (key : StateKey) (m : Memory) → Tidy m → Tidy (record m { pods = drop_resource key m.pods })
swept-Tidy key m t = record {
  pods = keys-drop_resource (watched m.live) key m.pods t.pods;
  events = t.events;
}

pod_recovered-Tidy : (pod : Pod) (m : Memory) → Tidy m → Tidy (pod_recovered pod m).0
unfolding pod_recovered
pod_recovered-Tidy pod m t =
    resolve_owner-Tidy (controller_event_key pod) _
      (resolve_events-Tidy (pod_key pod) false _ (swept-Tidy (pod_key pod) m t))

on_pod_delete-Tidy : (pod : Pod) (m : Memory) → Tidy m → Tidy (on_pod_delete pod m).0
unfolding on_pod_delete
on_pod_delete-Tidy pod m t = resolve_events-Tidy (pod_key pod) true _ (swept-Tidy (pod_key pod) m t)

tracked_pod-Tidy :
    (pod : Pod) (t : Trouble) (narrated : Bool) (m : Memory)
    → member pod.namespace m.live ≡ true
    → Tidy m
    → Tidy (record m { pods = track (pod_key pod) t.reason (condition_of t narrated) m.pods })
unfolding pod_key
tracked_pod-Tidy pod t narrated m l v = record {
  pods =
      keys-track (watched m.live) (pod_key pod) t.reason (condition_of t narrated) m.pods l v.pods;
  events = v.events;
}

pod_sighted-Tidy :
    (pod : Pod) (trouble : Option Trouble) (m : Memory)
    → member pod.namespace m.live ≡ true
    → Tidy m
    → Tidy (pod_sighted pod trouble m).0
unfolding pod_sighted pod_arisen
pod_sighted-Tidy pod none m l t = pod_recovered-Tidy pod m t
pod_sighted-Tidy pod (some trouble) m l t =
    elim (Bool-cases (is_known (tracked (pod_key pod) trouble.reason m.pods) trouble.container)) [
      | inl q ↦ rw q t
      | inr q ↦ rw q (tracked_pod-Tidy pod trouble true m l t)
    ]

on_pod_change-Tidy : (pod : Pod) (m : Memory) → Tidy m → Tidy (on_pod_change pod m).0
unfolding on_pod_change
on_pod_change-Tidy pod m t = elim (Bool-cases (member pod.namespace m.live)) [
  | inl l ↦ rw l (pod_sighted-Tidy pod (pod_trouble pod) m l t)
  | inr q ↦ rw q t
]

seed_pod_baseline-Tidy : (pod : Pod) (m : Memory) → Tidy m → Tidy (seed_pod_baseline pod m)
unfolding seed_pod_baseline
seed_pod_baseline-Tidy pod m t = elim (Option-cases (pod_trouble pod)) [
  | inl q ↦ rw (seed_pod_baseline, q) t
  | inr (trouble, q) ↦ elim (Bool-cases (member pod.namespace m.live)) [
    | inl l ↦ rw (seed_pod_baseline, q, l) (tracked_pod-Tidy pod trouble false m l t)
    | inr l ↦ rw (seed_pod_baseline, q, l) t
  ]
]

on_pod_add-Tidy :
    (pod : Pod) (initial : Bool) (m : Memory) → Tidy m → Tidy (on_pod_add pod initial m).0
unfolding on_pod_add
on_pod_add-Tidy pod initial m t =
    elim (Bool-cases (initial && not (member pod.namespace m.torn_down))) [
      | inl q ↦ rw q (seed_pod_baseline-Tidy pod m t)
      | inr q ↦ rw q (on_pod_change-Tidy pod m t)
    ]

tracked_event-Tidy :
    (ev : Warning) (d : EventDedupe) (m : Memory)
    → member ev.namespace m.live ≡ true
    → Tidy m
    → Tidy (record m { events = track (event_involved_key ev) ev.reason d m.events })
unfolding event_involved_key
tracked_event-Tidy ev d m l v = record {
  pods = v.pods;
  events = keys-track (watched m.live) (event_involved_key ev) ev.reason d m.events l v.events;
}

event_noted-Tidy : (ev : Warning) (m : Memory) → Tidy m → Tidy (event_noted ev m).0
unfolding event_noted
event_noted-Tidy ev m t = elim (Bool-cases (is_arising ev m)) [
  | inl q ↦ rw q (
      tracked_event-Tidy ev (record { narrated = true; container = ev.container }) m
        (ground (arith, q)) t)
  | inr q ↦ rw q t
]

event_settled-Tidy :
    (ev : Warning) (current : Option Pod) (m : Memory)
    → Tidy m
    → Tidy (event_settled ev current m).0
unfolding event_settled
event_settled-Tidy ev current m t =
    elim (Bool-cases (str_eq (event_involved_key ev).kind kind_pod && is_well current)) [
      | inl q ↦ rw q (resolve_events-Tidy (event_involved_key ev) false m t)
      | inr q ↦ rw q t
    ]

seed_event_baseline-Tidy : (ev : Warning) (m : Memory) → Tidy m → Tidy (seed_event_baseline ev m)
unfolding seed_event_baseline
seed_event_baseline-Tidy ev m t = elim (Bool-cases (is_warning ev && member ev.namespace m.live)) [
  | inl q ↦ rw q (
      tracked_event-Tidy ev (record { narrated = false; container = ev.container }) m
        (ground (arith, q)) t)
  | inr q ↦ rw q t
]

on_event_add-Tidy :
    (ev : Warning) (initial : Bool) (m : Memory) → Tidy m → Tidy (on_event_add ev initial m).0
unfolding on_event_add
on_event_add-Tidy ev initial m t =
    elim (Bool-cases (initial && not (member ev.namespace m.torn_down))) [
      | inl q ↦ rw q (seed_event_baseline-Tidy ev m t)
      | inr q ↦ rw q (event_noted-Tidy ev m t)
    ]

on_event_delete-Tidy : (ev : Warning) (m : Memory) → Tidy m → Tidy (on_event_delete ev m)
unfolding on_event_delete
on_event_delete-Tidy ev m t = record {
  pods = t.pods;
  events = keys-drop_reason (watched m.live) (event_involved_key ev) ev.reason m.events t.events;
}

-- A section of a handler that an informer calls, or a round of the loop of `run`. `event_checked` is the
-- second section of `onEventChange`.
pub data Delivery : Type 0 where
  pod_added : Pod → Bool → Delivery
  pod_updated pod_deleted : Pod → Delivery
  event_added : Warning → Bool → Delivery
  event_updated event_deleted : Warning → Delivery
  event_checked : Warning → Option Pod → Delivery
  woken : Wake → Delivery

unfoldable pub deliver : Delivery → Watcher → Watcher
unfolding on_pod_add on_pod_change on_pod_delete on_event_add event_noted event_settled
    on_event_delete wake
deliver (pod_added pod initial) w = record w { memory = (on_pod_add pod initial w.memory).0 }
deliver (pod_updated pod) w = record w { memory = (on_pod_change pod w.memory).0 }
deliver (pod_deleted pod) w = record w { memory = (on_pod_delete pod w.memory).0 }
deliver (event_added ev initial) w = record w { memory = (on_event_add ev initial w.memory).0 }
deliver (event_updated ev) w = record w { memory = (event_noted ev w.memory).0 }
deliver (event_checked ev current) w = record w { memory = (event_settled ev current w.memory).0 }
deliver (event_deleted ev) w = record w { memory = on_event_delete ev w.memory }
deliver (woken wk) w = (wake wk w).0

unfoldable pub deliver_all : List Delivery → Watcher → Watcher
unfolding deliver
deliver_all [] w = w
deliver_all (d ∷ ds) w = deliver_all ds (deliver d w)

wake-Tidy : (wk : Wake) (w : Watcher) → Tidy w.memory → Tidy (wake wk w).0.memory
unfolding wake
wake-Tidy stop_closed w t = stop-Tidy w t
wake-Tidy hub_closed w t = stop-Tidy w t
wake-Tidy (published Kind.phase sc) w t = reconcile-Tidy sc w t
wake-Tidy (published Kind.log sc) w t = t
wake-Tidy (published Kind.component sc) w t = t
wake-Tidy (published Kind.cluster sc) w t = t
wake-Tidy (published Kind.decision sc) w t = t
wake-Tidy (published Kind.error sc) w t = t
wake-Tidy (published Kind.recovered sc) w t = t
wake-Tidy (ticked sc) w t = reconcile-Tidy sc w t

deliver-Tidy : (d : Delivery) (w : Watcher) → Tidy w.memory → Tidy (deliver d w).memory
unfolding deliver
deliver-Tidy (pod_added pod initial) w t = on_pod_add-Tidy pod initial w.memory t
deliver-Tidy (pod_updated pod) w t = on_pod_change-Tidy pod w.memory t
deliver-Tidy (pod_deleted pod) w t = on_pod_delete-Tidy pod w.memory t
deliver-Tidy (event_added ev initial) w t = on_event_add-Tidy ev initial w.memory t
deliver-Tidy (event_updated ev) w t = event_noted-Tidy ev w.memory t
deliver-Tidy (event_checked ev current) w t = event_settled-Tidy ev current w.memory t
deliver-Tidy (event_deleted ev) w t = on_event_delete-Tidy ev w.memory t
deliver-Tidy (woken wk) w t = wake-Tidy wk w t

-- Nothing is remembered of a namespace that is not watched: from a start where every condition and every
-- warning on record is of a watched namespace, this is so after any sections of the handlers, in any
-- order, late ones for namespaces that are watched no longer included, and any rounds of the loop that
-- starts and stops namespaces.
pub deliver_all-Tidy :
    (ds : List Delivery) (w : Watcher) → Tidy w.memory → Tidy (deliver_all ds w).memory
unfolding deliver_all
deliver_all-Tidy [] w t = t
deliver_all-Tidy (d ∷ ds) w t = deliver_all-Tidy ds (deliver d w) (deliver-Tidy d w t)
