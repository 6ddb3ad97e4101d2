-- ===== src/Observer/Scoped/Sweeps.antt =====
-- internal/observer/scoped.go: what is remembered when namespaces come and go.
use aicrme.Prelude.{
  ◌≡◌, refl, String, str_eq, eq_iff, Bool, true, List, [], ◌∷◌, arith, member, select, all,
  Bool-cases, inl, inr,
}
use aicrme.Observer.Pods.{StateKey}
use aicrme.Observer.Tracked.{Tracked, track, drop_resource, drop_reason}
use aicrme.Observer.Conditions.{Memory}
use aicrme.Observer.Scoped.{
  RunScope, Watcher, clear_namespace, clear_namespace_state, without, stop_namespace, stop_each,
  stop_all, start_namespace, start_each, is_idle, change_run, forget_torn_down, outside, follow,
  stop, reconcile,
}
use aicrme.Observer.Scoped.Watching.{member-without}

-- Are all resources of a map of this kind?
abbrev pub all_keys {ℓ} : {V : Type ℓ} → (StateKey → Bool) → Tracked V → Bool
all_keys p m = all (λ e. p e.0) m

module _ {ℓ} {V : Type ℓ} (p : StateKey → Bool) where
  pub keys-track :
      (k : StateKey) (r : String) (v : V) (m : Tracked V)
      → p k ≡ true
      → all_keys p m ≡ true
      → all_keys p (track k r v m) ≡ true
  unfolding track
  keys-track k r v [] h g = ground (arith, h)
  keys-track k r v ((j, s, w) ∷ m) h g = ground (arith, h, g, keys-track k r v m)

  pub keys-drop_resource :
      (k : StateKey) (m : Tracked V) → all_keys p m ≡ true → all_keys p (drop_resource k m) ≡ true
  unfolding drop_resource
  keys-drop_resource k [] g = refl
  keys-drop_resource k ((j, s, w) ∷ m) g = ground (arith, g, keys-drop_resource k m)

  pub keys-drop_reason :
      (k : StateKey) (r : String) (m : Tracked V)
      → all_keys p m ≡ true
      → all_keys p (drop_reason k r m) ≡ true
  unfolding drop_reason
  keys-drop_reason k r [] g = refl
  keys-drop_reason k r ((j, s, w) ∷ m) g = ground (arith, g, keys-drop_reason k r m)

abbrev pub watched : List String → StateKey → Bool
watched live k = member k.namespace live

module _ {ℓ} {V : Type ℓ} where
  keys-clear :
      (ns : String) (live : List String) (m : Tracked V)
      → all_keys (watched live) m ≡ true
      → all_keys (watched (without ns live)) (clear_namespace ns m) ≡ true
  unfolding clear_namespace
  keys-clear ns live [] g = refl
  keys-clear ns live ((k, r, v) ∷ m) g = ground (
    arith,
    g,
    eq_iff ns k.namespace,
    eq_iff k.namespace ns,
    member-without k.namespace ns live,
    keys-clear ns live m,
  )

  keys-start :
      (ns : String) (live : List String) (m : Tracked V)
      → all_keys (watched live) m ≡ true
      → all_keys (watched (ns ∷ live)) m ≡ true
  keys-start ns live [] g = refl
  keys-start ns live ((k, r, v) ∷ m) g = ground (arith, g, keys-start ns live m)

-- Every condition and every warning on record is of a namespace that is watched.
pub record Tidy (m : Memory) : Type 0 where
  pub pods : all_keys (watched m.live) m.pods ≡ true
  pub events : all_keys (watched m.live) m.events ≡ true

stop_namespace-Tidy : (ns : String) (m : Memory) → Tidy m → Tidy (stop_namespace ns m)
unfolding stop_namespace clear_namespace_state
stop_namespace-Tidy ns m t = record {
  pods = keys-clear ns m.live m.pods t.pods;
  events = keys-clear ns m.live m.events t.events;
}

stop_each-Tidy : (names : List String) (m : Memory) → Tidy m → Tidy (stop_each names m)
unfolding stop_each
stop_each-Tidy [] m t = t
stop_each-Tidy (ns ∷ names) m t =
    stop_each-Tidy names (stop_namespace ns m) (stop_namespace-Tidy ns m t)

start_namespace-Tidy : (ns : String) (m : Memory) → Tidy m → Tidy (start_namespace ns m)
unfolding start_namespace
start_namespace-Tidy ns m t = elim (Bool-cases (member ns m.live)) [
  | inl q ↦ rw q t
  | inr q ↦ rw q (record {
    pods = keys-start ns m.live m.pods t.pods;
    events = keys-start ns m.live m.events t.events;
  })
]

start_each-Tidy : (names : List String) (m : Memory) → Tidy m → Tidy (start_each names m)
unfolding start_each
start_each-Tidy [] m t = t
start_each-Tidy (ns ∷ names) m t =
    start_each-Tidy names (start_namespace ns m) (start_namespace-Tidy ns m t)

pub stop-Tidy : (w : Watcher) → Tidy w.memory → Tidy (stop w).memory
unfolding stop stop_all
stop-Tidy w t = stop_each-Tidy w.memory.live w.memory t

change_run-Tidy : (sc : RunScope) (w : Watcher) → Tidy w.memory → Tidy (change_run sc w).memory
unfolding change_run stop_all
change_run-Tidy sc w t = elim (Bool-cases (str_eq w.run_id sc.run_id)) [
  | inl q ↦ rw q t
  | inr q ↦ rw q (stop_each-Tidy w.memory.live w.memory t)
]

forget_torn_down-Tidy :
    (sc : RunScope) (w : Watcher) → Tidy w.memory → Tidy (forget_torn_down sc w).memory
unfolding forget_torn_down
forget_torn_down-Tidy sc w t = elim (Bool-cases (str_eq sc.run_id w.torn_down_run)) [
  | inl q ↦ rw q t
  | inr q ↦ rw q (record { pods = t.pods; events = t.events })
]

pub reconcile-Tidy : (sc : RunScope) (w : Watcher) → Tidy w.memory → Tidy (reconcile sc w).memory
unfolding reconcile follow
reconcile-Tidy sc w t = elim (Bool-cases (is_idle sc)) [
  | inl q ↦ rw q (stop-Tidy w t)
  | inr q ↦
      let next = forget_torn_down sc (change_run sc w) in
      rw q (
        start_each-Tidy sc.namespaces _ (
          stop_each-Tidy (select (outside sc.namespaces) next.memory.live) next.memory
            (forget_torn_down-Tidy sc (change_run sc w) (change_run-Tidy sc w t))))
]
