-- ===== src/Observer/Conditions/Expiry.antt =====
-- internal/observer/events.go, handlers.go and pods.go: a warning whose event object expires.
use aicrme.Prelude.{
  ◌≡◌, refl, sym, ap, subst, String, str_eq, eq_iff, true, false, List, [], ◌∷◌, ◌++◌, Option, none,
  some, arith, member, any, any-append,
}
use aicrme.Observer.Pods.{StateKey, Pod, pod_key, pod_trouble}
use aicrme.Observer.Tracked.{
  Tracked, tracked, track, of_resource, drop_resource, drop_reason, key_eq_iff,
}
use aicrme.Observer.Events.{
  Warning, EventDedupe, event_involved_key, controller_event_key, event_cluster_data,
  resolve_events, event_resolutions, event_resolution,
}
use aicrme.Observer.Conditions.{
  Memory, Narration, narrate, resolve_owner, pod_recovered, pod_sighted, pod_resolutions,
  on_pod_change, event_noted, event_settled, on_event_change, on_event_delete, is_well, is_warning,
  is_seen,
}
use aicrme.Observer.Conditions.Sweep.{outstanding, about, narrate-append}

module _ (u r : String) where
  -- What is not about a condition leaves it outstanding.
  outstanding_stays :
      (ns : List Narration) → any (about u r) ns ≡ false → outstanding u r true ns ≡ true
  unfolding outstanding
  outstanding_stays [] h = refl
  outstanding_stays (n ∷ ns) h = ground (arith, h, outstanding_stays ns)

  other_reasons :
      (ns : String) (j k : StateKey) (events : Tracked EventDedupe)
      → j ≡ k
      → any
          (about u r)
          (narrate ns (event_resolutions j false (of_resource j (drop_reason k r events))))
        ≡ false
  unfolding narrate event_resolutions event_resolution of_resource drop_reason
  other_reasons ns j k [] e = refl
  other_reasons ns j k ((i, s, c) ∷ events) e =
      ground (arith, e, key_eq_iff i k, key_eq_iff i j, eq_iff s r, other_reasons ns j k events e)

  other_resource :
      (ns : String) (j : StateKey) (set : List (String × EventDedupe))
      → str_eq j.uid u ≡ false
      → any (about u r) (narrate ns (event_resolutions j false set)) ≡ false
  unfolding narrate event_resolutions event_resolution
  other_resource ns j [] e = refl
  other_resource ns j ((s, c) ∷ set) e = ground (arith, e, other_resource ns j set e)

  other_owner :
      (ns : String) (owner : Option StateKey) (events : Tracked EventDedupe)
      → ((key : StateKey) → owner ≡ some key → str_eq key.uid u ≡ false)
      → any (about u r) (narrate ns (resolve_owner owner events).0) ≡ false
  unfolding narrate resolve_owner resolve_events
  other_owner ns none events h = refl
  other_owner ns (some key) events h = other_resource ns key (of_resource key events) (h key refl)

-- What is narrated when a warning comes, its event object is deleted, and the pod is then seen.
abbrev pub expires : Warning → Option Pod → Pod → Memory → List Narration
expires ev current pod m =
    let (m', ns) = on_event_change ev current m in
    ns ++ (on_pod_change pod (on_event_delete ev m')).1

recovered_silent :
    (ev : Warning) (pod : Pod) (m : Memory)
    → pod_key pod ≡ event_involved_key ev
    → of_resource (pod_key pod) m.pods ≡ []
    → ((owner : StateKey)
        → controller_event_key pod ≡ some owner
        → str_eq owner.uid pod.uid ≡ false)
    → any (about pod.uid ev.reason) (pod_recovered pod (on_event_delete ev m)).1 ≡ false
unfolding pod_recovered on_event_delete resolve_events pod_resolutions
recovered_silent ev pod m e none_here owner =
    let left = drop_reason (event_involved_key ev) ev.reason m.events in
    let own = event_resolutions (pod_key pod) false (of_resource (pod_key pod) left) in
    let owners = (resolve_owner (controller_event_key pod) (drop_resource (pod_key pod) left)).0 in
    rw
      (
        none_here,
        narrate-append pod.namespace own owners,
        any-append (about pod.uid ev.reason) (narrate pod.namespace own)
            (narrate pod.namespace owners),
        other_reasons pod.uid ev.reason pod.namespace (pod_key pod) (event_involved_key ev) m.events
            e,
      )
      (other_owner pod.uid ev.reason pod.namespace (controller_event_key pod) _ owner)

abbrev narrated : Warning → Memory → Memory
narrated ev m = record m {
  events =
      track (event_involved_key ev) ev.reason (record { narrated = true; container = ev.container })
        m.events;
}

new_warning :
    (ev : Warning) (current : Option Pod) (m : Memory)
    → is_warning ev ≡ true
    → member ev.namespace m.live ≡ true
    → is_seen (tracked (event_involved_key ev) ev.reason m.events) ≡ false
    → is_well current ≡ false
    → on_event_change ev current m
      ≡ (narrated ev m, record { ns = ev.namespace; cd = event_cluster_data ev } ∷ [])
unfolding on_event_change event_noted event_settled
new_warning ev current m w l n c = ground arith

well_again :
    (pod : Pod) (m : Memory)
    → pod_trouble pod ≡ none
    → member pod.namespace m.live ≡ true
    → on_pod_change pod m ≡ pod_recovered pod m
unfolding on_pod_change pod_sighted
well_again pod m p l = rw (l, p) refl

narrated_once :
    (ev : Warning) (uid : String) (ns : List Narration)
    → ev.involved_uid ≡ uid
    → any (about uid ev.reason) ns ≡ false
    → outstanding uid ev.reason false
        (record { ns = ev.namespace; cd = event_cluster_data ev } ∷ ns)
      ≡ true
unfolding outstanding event_cluster_data
narrated_once ev uid ns e h = ground (
  arith,
  e,
  eq_iff ev.involved_uid uid,
  eq_iff ev.reason ev.reason,
  outstanding_stays uid ev.reason ns h,
)

same_place :
    (ev : Warning) (pod : Pod)
    → pod_key pod ≡ event_involved_key ev
    → (pod.namespace ≡ ev.namespace) × (ev.involved_uid ≡ pod.uid)
unfolding pod_key event_involved_key
same_place ev pod e = (ap (λ k. k.namespace) e, sym (ap (λ k. k.uid) e))

-- A warning that is narrated of a pod in trouble, and whose event object then expires, stays
-- outstanding when the pod is seen to be well. Asked is that the warning is new, that the pod has no
-- condition of its own recorded, and that its controller has another identifier.
pub expired_warning_strands :
    (ev : Warning) (current : Option Pod) (pod : Pod) (m : Memory)
    → is_warning ev ≡ true
    → member ev.namespace m.live ≡ true
    → is_seen (tracked (event_involved_key ev) ev.reason m.events) ≡ false
    → is_well current ≡ false
    → pod_key pod ≡ event_involved_key ev
    → of_resource (pod_key pod) m.pods ≡ []
    → ((owner : StateKey)
        → controller_event_key pod ≡ some owner
        → str_eq owner.uid pod.uid ≡ false)
    → pod_trouble pod ≡ none
    → outstanding pod.uid ev.reason false (expires ev current pod m) ≡ true
unfolding on_event_delete
expired_warning_strands ev current pod m w l n c e none_here owner well =
    let (place, id) = same_place ev pod e in
    rw
      (
        new_warning ev current m w l n c,
        well_again pod (on_event_delete ev (narrated ev m)) well
            (subst (λ ns. member ns m.live ≡ true) (sym place) l),
      )
      (narrated_once ev pod.uid (pod_recovered pod (on_event_delete ev (narrated ev m))).1 id
        (recovered_silent ev pod (narrated ev m) e none_here owner))
