-- ===== src/Observer/Conditions/Keeping.antt =====
-- internal/observer/pods.go, events.go and handlers.go: a condition that was narrated is kept
-- until it is resolved.
use aicrme.Prelude.{
  ◌≡◌, ap, subst, String, str_eq, eq_iff, Bool, true, false, List, [], ◌∷◌, ◌++◌, Option, none,
  some, arith, member, All-append, Bool-cases, inl, inr, any, any-append,
}
use aicrme.Observer.Pods.{StateKey, Pod, Trouble, pod_key, pod_trouble}
use aicrme.Observer.Tracked.{Tracked, tracked, track, of_resource, key_eq_iff, tracked-track}
use aicrme.Observer.Events.{
  Warning, EventDedupe, event_involved_key, controller_event_key, event_cluster_data,
  resolve_events,
}
use aicrme.Observer.Conditions.{
  Memory, Narration, pod_cluster_data, condition_of, pod_resolutions, narrate, resolve_owner,
  pod_recovered, pod_arisen, pod_sighted, is_known, on_pod_change, narrated_set, on_pod_delete,
}
use aicrme.Observer.Conditions.Sweep.{
  outstanding, about, Resolved, Resolved-clear, pod_resolutions-Resolved,
  event_resolutions-Resolved, narrate-append, event_told, Sound, pods-kept, events-kept,
  pod_resolutions-cover, narrated_set-cover, pods-named,
}

-- The state after a handler, and what was said.
abbrev pub Handled : Type 0
Handled = Memory × List Narration

module _ (k : StateKey) (r : String) where
  abbrev pub after : Bool → List Narration → Bool
  after b ns = outstanding k.uid r b ns

  abbrev pub Keeps : Memory → Handled → Type 0
  Keeps m (m', ns) = (b : Bool) → Sound k r m b → Sound k r m' (after b ns)

  pub sweep-Resolved :
      (ns : String) (key : StateKey) (only : Bool) (events : Tracked EventDedupe)
      → Resolved (narrate ns (resolve_events key only events).0)
  unfolding resolve_events
  sweep-Resolved ns key only events =
      event_resolutions-Resolved ns key only (of_resource key events)

  owner-Resolved :
      (ns : String) (owner : Option StateKey) (events : Tracked EventDedupe)
      → Resolved (narrate ns (resolve_owner owner events).0)
  unfolding resolve_owner narrate
  owner-Resolved ns none events = tt
  owner-Resolved ns (some key) events = sweep-Resolved ns key false events

  owner-kept :
      (ns : String) (owner : Option StateKey) (events : Tracked EventDedupe)
      → any (about k.uid r) (narrate ns (resolve_owner owner events).0) ≡ false
      → event_told (tracked k r events) ≡ true
      → event_told (tracked k r (resolve_owner owner events).1) ≡ true
  unfolding resolve_owner
  owner-kept ns none events silent told = told
  owner-kept ns (some key) events silent told = events-kept k r ns key false events silent told

  pub pod_recovered-Keeps : (pod : Pod) (m : Memory) → Keeps m (pod_recovered pod m)
  unfolding pod_recovered
  pod_recovered-Keeps pod m b v =
      let key = pod_key pod in
      let swept = resolve_events key false m.events in
      let owners = resolve_owner (controller_event_key pod) swept.1 in
      let mine = pod_resolutions pod (of_resource key m.pods) in
      let split : mine ++ narrate pod.namespace (swept.0 ++ owners.0)
          ≡ mine ++ (narrate pod.namespace swept.0 ++ narrate pod.namespace owners.0) =
        ap (λ l. mine ++ l) (narrate-append pod.namespace swept.0 owners.0) in
      record {
        known = λ o.
            let (before, silent) =
              Resolved-clear k.uid r
                (mine ++ (narrate pod.namespace swept.0 ++ narrate pod.namespace owners.0)) b
                (All-append _ mine (narrate pod.namespace swept.0 ++ narrate pod.namespace owners.0)
                  (pod_resolutions-Resolved pod (of_resource key m.pods))
                  (All-append _ (narrate pod.namespace swept.0) (narrate pod.namespace owners.0)
                    (sweep-Resolved pod.namespace key false m.events)
                    (owner-Resolved pod.namespace (controller_event_key pod) swept.1)))
                (subst (λ l. after b l ≡ true) split o) in
            ground (
              arith,
              silent,
              v.known before,
              any-append (about k.uid r) mine
                  (narrate pod.namespace swept.0 ++ narrate pod.namespace owners.0),
              any-append (about k.uid r) (narrate pod.namespace swept.0)
                  (narrate pod.namespace owners.0),
              pods-kept k r pod m.pods (λ set. set)
                  (λ cond e h n.
                    pod_resolutions-cover k.uid r pod k m.pods cond e (v.named cond h) h),
              events-kept k r pod.namespace key false m.events,
              owner-kept pod.namespace (controller_event_key pod) swept.1,
            );
        named = pods-named k r key m.pods v.named;
      }

  pub on_pod_delete-Keeps : (pod : Pod) (m : Memory) → Keeps m (on_pod_delete pod m)
  unfolding on_pod_delete
  on_pod_delete-Keeps pod m b v =
      let key = pod_key pod in
      let mine = pod_resolutions pod (narrated_set (of_resource key m.pods)) in
      let swept = narrate pod.namespace (resolve_events key true m.events).0 in
      record {
        known = λ o.
            let (before, silent) =
              Resolved-clear k.uid r (mine ++ swept) b
                (All-append _ mine swept
                  (pod_resolutions-Resolved pod (narrated_set (of_resource key m.pods)))
                  (sweep-Resolved pod.namespace key true m.events))
                o in
            ground (
              arith,
              silent,
              v.known before,
              any-append (about k.uid r) mine swept,
              pods-kept k r pod m.pods narrated_set (λ cond e h n.
                  narrated_set-cover k.uid r pod k m.pods cond e (v.named cond h) n h),
              events-kept k r pod.namespace key true m.events,
            );
        named = pods-named k r key m.pods v.named;
      }

  -- A pod with the identifier is the pod of the key.
  abbrev pub OfPod : Pod → Type 0
  OfPod pod = str_eq pod.uid k.uid ≡ true → pod_key pod ≡ k

  pod_arisen-Keeps :
      (pod : Pod) (t : Trouble) (m : Memory) → OfPod pod → Keeps m (pod_arisen pod t m)
  unfolding pod_arisen pod_cluster_data outstanding
  pod_arisen-Keeps pod t m of b v = record {
    known = λ o. ground (
      arith,
      of,
      v.known,
      key_eq_iff (pod_key pod) k,
      tracked-track (pod_key pod) k t.reason r (condition_of t true) m.pods,
    );
    named = λ cond h. ground (
      arith,
      v.named cond,
      eq_iff t.reason r,
      h,
      tracked-track (pod_key pod) k t.reason r (condition_of t true) m.pods,
    );
  }

  pod_sighted-Keeps :
      (pod : Pod) (trouble : Option Trouble) (m : Memory)
      → OfPod pod
      → Keeps m (pod_sighted pod trouble m)
  unfolding pod_sighted outstanding
  pod_sighted-Keeps pod none m of b v = pod_recovered-Keeps pod m b v
  pod_sighted-Keeps pod (some t) m of b v =
      elim (Bool-cases (is_known (tracked (pod_key pod) t.reason m.pods) t.container)) [
        | inl q ↦ rw q v
        | inr q ↦ rw q (pod_arisen-Keeps pod t m of b v)
      ]

  pub on_pod_change-Keeps : (pod : Pod) (m : Memory) → OfPod pod → Keeps m (on_pod_change pod m)
  unfolding on_pod_change outstanding
  on_pod_change-Keeps pod m of b v = elim (Bool-cases (member pod.namespace m.live)) [
    | inl q ↦ rw q (pod_sighted-Keeps pod (pod_trouble pod) m of b v)
    | inr q ↦ rw q v
  ]

  abbrev pub OfEvent : Warning → Type 0
  OfEvent ev = str_eq ev.involved_uid k.uid ≡ true → event_involved_key ev ≡ k

  abbrev pub recorded : Warning → Memory → Memory
  recorded ev m = record m {
    events =
        track (event_involved_key ev) ev.reason
          (record { narrated = true; container = ev.container }) m.events;
  }

  pub recorded-Sound :
      (ev : Warning) (m : Memory) (b : Bool)
      → OfEvent ev
      → Sound k r m b
      → Sound k r
          (recorded ev m)
          (after b (record { ns = ev.namespace; cd = event_cluster_data ev } ∷ []))
  unfolding event_cluster_data outstanding event_involved_key
  recorded-Sound ev m b of v = record {
    known = λ o. ground (
      arith,
      of,
      v.known,
      key_eq_iff (event_involved_key ev) k,
      tracked-track (event_involved_key ev) k ev.reason r
          (record { narrated = true; container = ev.container }) m.events,
    );
    named = v.named;
  }
