-- ===== src/Observer/Conditions/Sweep.antt =====
-- internal/observer/pods.go, events.go and handlers.go: what a sweep over the conditions of a resource
-- resolves.
use aicrme.Prelude.{
  ◌≡◌, refl, sym, ap, subst, String, str_eq, eq_iff, Bool, true, false, not, ◌&&◌, ◌||◌, List, [],
  ◌∷◌, ◌++◌, Option, none, some, arith, if◌then◌else◌, All, Bool-cases, Option-cases, inl, inr, any,
}
use aicrme.Bus.Cluster.{ClusterData}
use aicrme.Observer.Pods.{StateKey, Pod, pod_key}
use aicrme.Observer.Tracked.{
  Tracked, tracked, of_resource, drop_resource, key_eq, key_eq_iff, tracked-drop_resource,
}
use aicrme.Observer.Events.{EventDedupe, resolve_events, event_resolutions, event_resolution}
use aicrme.Observer.Conditions.{
  PodCondition, Memory, Narration, pod_cluster_data, pod_resolutions, narrate, narrated_set,
}

-- Is the last word on a condition that it is there? `b` is what was said before.
unfoldable pub outstanding : String → String → Bool → List Narration → Bool
outstanding uid reason b [] = b
outstanding uid reason b (n ∷ ns) =
    outstanding uid reason
      (if str_eq n.cd.uid uid && str_eq n.cd.reason reason then not n.cd.resolved else b) ns

abbrev pub about : String → String → Narration → Bool
about u r n = str_eq n.cd.uid u && str_eq n.cd.reason r

abbrev pub Resolved : List Narration → Type 0
Resolved = All (λ n. n.cd.resolved ≡ true)

module _ (u r : String) where
  pub outstanding-append :
      (xs ys : List Narration) (b : Bool)
      → outstanding u r b (xs ++ ys) ≡ outstanding u r (outstanding u r b xs) ys
  unfolding outstanding
  outstanding-append [] ys b = refl
  outstanding-append (n ∷ xs) ys b = outstanding-append xs ys _

  -- After resolutions, what is outstanding was so before and is none of those resolved.
  pub Resolved-clear :
      (ns : List Narration) (b : Bool)
      → Resolved ns
      → outstanding u r b ns ≡ true
      → (b ≡ true) × (any (about u r) ns ≡ false)
  unfolding outstanding
  Resolved-clear [] b h o = (o, refl)
  Resolved-clear (n ∷ ns) b (h, hs) o =
      let (before, others) = Resolved-clear ns _ hs o in ground (arith, before, others, h)

  pub pod_resolutions-cover :
      (pod : Pod) (k : StateKey) (m : Tracked PodCondition) (cond : PodCondition)
      → pod.uid ≡ u
      → cond.reason ≡ r
      → tracked k r m ≡ some cond
      → any (about u r) (pod_resolutions pod (of_resource k m)) ≡ true
  unfolding pod_resolutions pod_cluster_data of_resource tracked
  pod_resolutions-cover pod k [] cond e f h = absurd (ground arith)
  pod_resolutions-cover pod k ((j, s, c) ∷ m) cond e f h =
      ground (arith, eq_iff pod.uid u, eq_iff c.reason r, pod_resolutions-cover pod k m cond e f)

  pub narrated_set-cover :
      (pod : Pod) (k : StateKey) (m : Tracked PodCondition) (cond : PodCondition)
      → pod.uid ≡ u
      → cond.reason ≡ r
      → cond.narrated ≡ true
      → tracked k r m ≡ some cond
      → any (about u r) (pod_resolutions pod (narrated_set (of_resource k m))) ≡ true
  unfolding pod_resolutions pod_cluster_data of_resource tracked narrated_set
  narrated_set-cover pod k [] cond e f g h = absurd (ground arith)
  narrated_set-cover pod k ((j, s, c) ∷ m) cond e f g h =
      ground (arith, eq_iff pod.uid u, eq_iff c.reason r, narrated_set-cover pod k m cond e f g)

  event_resolutions-cover :
      (ns : String) (k : StateKey) (only : Bool) (m : Tracked EventDedupe) (cond : EventDedupe)
      → k.uid ≡ u
      → (only && not cond.narrated) ≡ false
      → tracked k r m ≡ some cond
      → any (about u r) (narrate ns (event_resolutions k only (of_resource k m))) ≡ true
  unfolding narrate event_resolutions event_resolution of_resource tracked
  event_resolutions-cover ns k only [] cond e f h = absurd (ground arith)
  event_resolutions-cover ns k only ((j, s, c) ∷ m) cond e f h =
      ground (arith, eq_iff k.uid u, eq_iff s r, event_resolutions-cover ns k only m cond e f)

pub pod_resolutions-Resolved :
    (pod : Pod) (set : List (String × PodCondition)) → Resolved (pod_resolutions pod set)
unfolding pod_resolutions pod_cluster_data
pod_resolutions-Resolved pod [] = tt
pod_resolutions-Resolved pod ((reason, cond) ∷ set) = (refl, pod_resolutions-Resolved pod set)

pub event_resolutions-Resolved :
    (ns : String) (key : StateKey) (b : Bool) (set : List (String × EventDedupe))
    → Resolved (narrate ns (event_resolutions key b set))
unfolding narrate event_resolutions event_resolution
event_resolutions-Resolved ns key b [] = tt
event_resolutions-Resolved ns key b ((reason, cond) ∷ set) =
    elim (Bool-cases (b && not cond.narrated)) [
      | inl q ↦ rw q (event_resolutions-Resolved ns key b set)
      | inr q ↦ rw q ((refl, event_resolutions-Resolved ns key b set))
    ]

pub narrate-append :
    (ns : String) (xs ys : List ClusterData)
    → narrate ns (xs ++ ys) ≡ narrate ns xs ++ narrate ns ys
unfolding narrate
narrate-append ns [] ys = refl
narrate-append ns (x ∷ xs) ys = ap (λ l. record { ns = ns; cd = x } ∷ l) (narrate-append ns xs ys)

abbrev pub pod_told : Option PodCondition → Bool
pod_told none = false
pod_told (some cond) = cond.narrated

abbrev pub event_told : Option EventDedupe → Bool
event_told none = false
event_told (some cond) = cond.narrated

module _ (k : StateKey) (r : String) where
  -- Is this condition recorded as one that was narrated?
  abbrev pub held : Memory → Bool
  held m = pod_told (tracked k r m.pods) || event_told (tracked k r m.events)

  pub record Sound (m : Memory) (b : Bool) : Type 0 where
    pub known : b ≡ true → held m ≡ true
    pub named : (cond : PodCondition) → tracked k r m.pods ≡ some cond → cond.reason ≡ r

  -- What is not resolved by a sweep over a resource is not of that resource.
  pub pods-kept :
      (pod : Pod) (pods : Tracked PodCondition)
      (sweep : List (String × PodCondition) → List (String × PodCondition))
      → ((cond : PodCondition)
          → pod.uid ≡ k.uid
          → tracked k r pods ≡ some cond
          → cond.narrated ≡ true
          → any (about k.uid r) (pod_resolutions pod (sweep (of_resource k pods))) ≡ true)
      → any (about k.uid r) (pod_resolutions pod (sweep (of_resource (pod_key pod) pods))) ≡ false
      → pod_told (tracked k r pods) ≡ true
      → pod_told (tracked k r (drop_resource (pod_key pod) pods)) ≡ true
  unfolding pod_key
  pods-kept pod pods sweep covers silent told = elim (Bool-cases (key_eq (pod_key pod) k)) [
    | inl q ↦ elim (Option-cases (tracked k r pods)) [
      | inl n ↦ absurd (ground (arith, n, told))
      | inr (cond, h) ↦
          let same = (key_eq_iff (pod_key pod) k).0 q in
          absurd (
            ground (
              arith,
              silent,
              subst
                  (λ j.
                    any (about k.uid r) (pod_resolutions pod (sweep (of_resource j pods))) ≡ true)
                  (sym same) (covers cond (ap (λ j. j.uid) same) h (ground (arith, h, told))),
            ))
    ]
    | inr q ↦ rw (tracked-drop_resource (pod_key pod) k r pods, q) told
  ]

  pub events-kept :
      (ns : String) (key : StateKey) (only : Bool) (events : Tracked EventDedupe)
      → any (about k.uid r) (narrate ns (resolve_events key only events).0) ≡ false
      → event_told (tracked k r events) ≡ true
      → event_told (tracked k r (resolve_events key only events).1) ≡ true
  unfolding resolve_events
  events-kept ns key only events silent told = elim (Bool-cases (key_eq key k)) [
    | inl q ↦ elim (Option-cases (tracked k r events)) [
      | inl n ↦ absurd (ground (arith, n, told))
      | inr (cond, h) ↦ absurd (
          ground (
            arith,
            silent,
            subst
                (λ j.
                  any (about k.uid r) (narrate ns (event_resolutions j only (of_resource j events)))
                  ≡ true)
                (sym ((key_eq_iff key k).0 q))
                (event_resolutions-cover k.uid r ns k only events cond refl
                  (ground (arith, h, told)) h),
          ))
    ]
    | inr q ↦ rw (tracked-drop_resource key k r events, q) told
  ]

  pub pods-named :
      (key : StateKey) (pods : Tracked PodCondition)
      → ((cond : PodCondition) → tracked k r pods ≡ some cond → cond.reason ≡ r)
      → (cond : PodCondition) → tracked k r (drop_resource key pods) ≡ some cond
      → cond.reason ≡ r
  pods-named key pods named cond h =
      ground (arith, tracked-drop_resource key k r pods, named cond, h)
