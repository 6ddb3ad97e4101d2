-- ===== src/Observer/Conditions/Recovery.antt =====
-- internal/observer/pods.go, events.go and handlers.go: no condition outlives the pod's recovery.
use aicrme.Prelude.{
  ◌≡◌, refl, String, str_eq, Bool, true, false, ◌&&◌, List, [], ◌∷◌, ◌++◌, Option, none, some,
  arith, member, All, Bool-cases, inl, inr,
}
use aicrme.Observer.Pods.{StateKey, Pod, pod_key, pod_trouble, kind_pod}
use aicrme.Observer.Tracked.{Tracked, tracked, drop_resource, key_eq_iff, tracked-drop_resource}
use aicrme.Observer.Events.{
  Warning, EventDedupe, event_involved_key, controller_event_key, resolve_events,
}
use aicrme.Observer.Conditions.{
  PodCondition, Memory, Narration, narrate, resolve_owner, pod_recovered, pod_sighted,
  on_pod_change, on_pod_delete, event_noted, event_settled, is_arising, is_well,
}
use aicrme.Observer.Conditions.Sweep.{
  outstanding, outstanding-append, Resolved-clear, held, Sound, events-kept,
}
use aicrme.Observer.Conditions.Keeping.{
  after, Keeps, sweep-Resolved, on_pod_delete-Keeps, on_pod_change-Keeps, OfEvent, recorded-Sound,
}

-- The sections that the handlers run after the initial list for pods that are there or gone and for
-- warnings: of a warning the first section, and the second, which comes at any later time, with the pod
-- that the cache then has.
pub data Sight : Type 0 where
  pod_seen : Pod → Sight
  pod_gone : Pod → Sight
  event_seen : Warning → Sight
  event_checked : Warning → Option Pod → Sight

unfoldable pub handle : Sight → Memory → Memory × List Narration
unfolding on_pod_change on_pod_delete event_noted event_settled
handle (pod_seen pod) m = on_pod_change pod m
handle (pod_gone pod) m = on_pod_delete pod m
handle (event_seen ev) m = event_noted ev m
handle (event_checked ev current) m = event_settled ev current m

unfoldable pub watch : List Sight → Memory → Memory × List Narration
unfolding handle
watch [] m = (m, [])
watch (s ∷ sights) m =
    let (m', ns) = handle s m in let (last, rest) = watch sights m' in (last, ns ++ rest)

module _ (k : StateKey) where
  -- Whatever has the identifier is the resource of the key.
  abbrev pub IsAbout : Sight → Type 0
  IsAbout (pod_seen pod) = str_eq pod.uid k.uid ≡ true → pod_key pod ≡ k
  IsAbout (pod_gone pod) = Unit
  IsAbout (event_checked ev current) = Unit
  IsAbout (event_seen ev) = str_eq ev.involved_uid k.uid ≡ true → event_involved_key ev ≡ k

  module _ (r : String) where
    resolved-Sound :
        (ns : String) (key : StateKey) (m : Memory) (b : Bool)
        → Sound k r m b
        → Sound k r
            (record m { events = (resolve_events key false m.events).1 })
            (after k r b (narrate ns (resolve_events key false m.events).0))
    resolved-Sound ns key m b v = record {
      known = λ o.
          let (before, silent) =
            Resolved-clear k.uid r (narrate ns (resolve_events key false m.events).0) b
              (sweep-Resolved k r ns key false m.events) o in
          ground (arith, silent, v.known before, events-kept k r ns key false m.events);
      named = v.named;
    }

    event_noted-Keeps :
        (ev : Warning) (m : Memory) → OfEvent k r ev → Keeps k r m (event_noted ev m)
    unfolding event_noted outstanding
    event_noted-Keeps ev m of b v = elim (Bool-cases (is_arising ev m)) [
      | inl q ↦ rw q (recorded-Sound k r ev m b of v)
      | inr q ↦ rw q v
    ]

    event_settled-Keeps :
        (ev : Warning) (current : Option Pod) (m : Memory)
        → Keeps k r m (event_settled ev current m)
    unfolding event_settled outstanding
    event_settled-Keeps ev current m b v =
        elim (Bool-cases (str_eq (event_involved_key ev).kind kind_pod && is_well current)) [
          | inl q ↦ rw q (resolved-Sound ev.namespace (event_involved_key ev) m b v)
          | inr q ↦ rw q v
        ]

    handle-Keeps : (s : Sight) (m : Memory) → IsAbout s → Keeps k r m (handle s m)
    unfolding handle
    handle-Keeps (pod_seen pod) m of b v = on_pod_change-Keeps k r pod m of b v
    handle-Keeps (pod_gone pod) m of b v = on_pod_delete-Keeps k r pod m b v
    handle-Keeps (event_seen ev) m of b v = event_noted-Keeps ev m of b v
    handle-Keeps (event_checked ev current) m of b v = event_settled-Keeps ev current m b v

    watch-Keeps :
        (sights : List Sight) (m : Memory) → All IsAbout sights → Keeps k r m (watch sights m)
    unfolding watch outstanding
    watch-Keeps [] m h b v = v
    watch-Keeps (s ∷ sights) m h b v =
        rw (outstanding-append k.uid r (handle s m).1 (watch sights (handle s m).0).1 b)
          (watch-Keeps sights (handle s m).0 h.1 _ (handle-Keeps s m h.0 b v))

    watch-Sound :
        (sights : List Sight) (s : Sight) (m : Memory) (b : Bool)
        → All IsAbout sights
        → IsAbout s
        → Sound k r m b
        → Sound k r
            (handle s (watch sights m).0).0
            (after k r b ((watch sights m).1 ++ (handle s (watch sights m).0).1))
    watch-Sound sights s m b h g v =
        rw (outstanding-append k.uid r (watch sights m).1 (handle s (watch sights m).0).1 b)
          (handle-Keeps s (watch sights m).0 g _ (watch-Keeps sights m h b v))

    dropped :
        {V : Type 0} (key : StateKey) (items : Tracked V)
        → key ≡ k
        → tracked k r (drop_resource key items) ≡ none
    dropped key items e = ground (arith, tracked-drop_resource key k r items, key_eq_iff key k, e)

    still_dropped :
        (owner : Option StateKey) (events : Tracked EventDedupe)
        → tracked k r events ≡ none
        → tracked k r (resolve_owner owner events).1 ≡ none
    unfolding resolve_owner resolve_events
    still_dropped none events h = h
    still_dropped (some key) events h = ground (arith, tracked-drop_resource key k r events, h)

    recovered_clear :
        (pod : Pod) (m : Memory) → pod_key pod ≡ k → held k r (pod_recovered pod m).0 ≡ false
    unfolding pod_recovered resolve_events
    recovered_clear pod m e = ground (
      arith,
      dropped (pod_key pod) m.pods e,
      still_dropped (controller_event_key pod) (drop_resource (pod_key pod) m.events)
          (dropped (pod_key pod) m.events e),
    )

    removed_clear :
        (pod : Pod) (m : Memory) → pod_key pod ≡ k → held k r (on_pod_delete pod m).0 ≡ false
    unfolding on_pod_delete resolve_events
    removed_clear pod m e =
        ground (arith, dropped (pod_key pod) m.pods e, dropped (pod_key pod) m.events e)

    well_clear :
        (pod : Pod) (m : Memory)
        → pod_key pod ≡ k
        → pod_trouble pod ≡ none
        → member pod.namespace m.live ≡ true
        → held k r (handle (pod_seen pod) m).0 ≡ false
    unfolding handle on_pod_change pod_sighted
    well_clear pod m e p l = rw (l, p) (recovered_clear pod m e)

    Sound-settled : (m : Memory) (b : Bool) → Sound k r m b → held k r m ≡ false → b ≡ false
    Sound-settled m true v h = absurd (ground (arith, v.known, h))
    Sound-settled m false v h = refl

-- Once a pod of a watched namespace is seen to be well, no condition of it is outstanding, whatever the
-- handlers did before for pods seen, pods gone and warnings, of this pod and of others, with the two
-- sections for a warning at any times: each reason that they narrated of it, by the pod or by a warning
-- about it, has been narrated as resolved after that. Narrations are taken in the order of the sections
-- that make them. The initial list, the deletion of event objects and namespaces that start or stop to
-- be watched are not among what came before. Asked is that whatever has the pod's identifier is this
-- pod, and that the map of conditions is keyed by their reasons.
pub recovery_settles :
    (k : StateKey) (r : String) (sights : List Sight) (pod : Pod) (m : Memory)
    → All (IsAbout k) sights
    → ((cond : PodCondition) → tracked k r m.pods ≡ some cond → cond.reason ≡ r)
    → pod_key pod ≡ k
    → pod_trouble pod ≡ none
    → member pod.namespace (watch sights m).0.live ≡ true
    → outstanding k.uid r false ((watch sights m).1 ++ (handle (pod_seen pod) (watch sights m).0).1)
      ≡ false
recovery_settles k r sights pod m h named e p l =
    Sound-settled k r _ _
      (watch-Sound k r sights (pod_seen pod) m false h (λ q. e)
        (record { known = λ o. absurd (ground arith); named = named }))
      (well_clear k r pod (watch sights m).0 e p l)

-- Once a pod is told to be gone, no condition of it is outstanding either, whatever the handlers did
-- before for pods seen, pods gone and warnings, under the same conditions, and whether or not its
-- namespace is still watched.
pub removal_settles :
    (k : StateKey) (r : String) (sights : List Sight) (pod : Pod) (m : Memory)
    → All (IsAbout k) sights
    → ((cond : PodCondition) → tracked k r m.pods ≡ some cond → cond.reason ≡ r)
    → pod_key pod ≡ k
    → outstanding k.uid r false ((watch sights m).1 ++ (handle (pod_gone pod) (watch sights m).0).1)
      ≡ false
unfolding handle
removal_settles k r sights pod m h named e =
    Sound-settled k r _ _
      (watch-Sound k r sights (pod_gone pod) m false h tt
        (record { known = λ o. absurd (ground arith); named = named }))
      (removed_clear k r pod (watch sights m).0 e)
