-- ===== src/Observer/Scoped/Watching.antt =====
-- internal/observer/scoped.go: which namespaces are watched.
use aicrme.Prelude.{
  ◌≡◌, refl, ap, String, str_eq, eq_iff, Bool, true, false, not, ◌&&◌, ◌||◌, List, [], ◌∷◌, arith,
  member, select, Bool-cases, inl, inr,
}
use aicrme.Observer.Conditions.{Memory}
use aicrme.Observer.Scoped.{
  RunScope, Watcher, without, clear_namespace_state, stop_namespace, stop_each, stop_all,
  start_namespace, start_each, is_idle, change_run, forget_torn_down, outside, follow, stop,
  reconcile,
}

pub member-without :
    (ns n : String) (names : List String)
    → member ns (without n names) ≡ (not (str_eq n ns) && member ns names)
unfolding without
member-without ns n [] = ground arith
member-without ns n (a ∷ names) =
    ground (arith, eq_iff a n, eq_iff n ns, eq_iff a ns, member-without ns n names)

member-select :
    (p : String → Bool) (ns : String) (names : List String)
    → member ns (select p names) ≡ (p ns && member ns names)
member-select p ns [] = ground arith
member-select p ns (n ∷ names) = elim (Bool-cases (str_eq n ns)) [
  | inl e ↦ ground (arith, e, ap p ((eq_iff n ns).0 e), member-select p ns names)
  | inr e ↦ ground (arith, e, member-select p ns names)
]

pub live-stop_each :
    (ns : String) (names : List String) (m : Memory)
    → member ns (stop_each names m).live ≡ (member ns m.live && not (member ns names))
unfolding stop_each stop_namespace clear_namespace_state
live-stop_each ns [] m = ground arith
live-stop_each ns (n ∷ names) m =
    ground
      (arith, eq_iff n ns, live-stop_each ns names (stop_namespace n m), member-without ns n m.live)

live-start_namespace :
    (ns n : String) (m : Memory)
    → member ns (start_namespace n m).live ≡ (member ns m.live || str_eq n ns)
unfolding start_namespace
live-start_namespace ns n m = elim (Bool-cases (str_eq n ns)) [
  | inl e ↦
      let same : member n m.live ≡ member ns m.live =
        ap (λ a. member a m.live) ((eq_iff n ns).0 e) in
      ground (arith, e, same)
  | inr e ↦ ground (arith, e)
]

pub live-start_each :
    (ns : String) (names : List String) (m : Memory)
    → member ns (start_each names m).live ≡ (member ns m.live || member ns names)
unfolding start_each
live-start_each ns [] m = ground arith
live-start_each ns (n ∷ names) m =
    ground (arith, live-start_namespace ns n m, live-start_each ns names (start_namespace n m))

live-stop_all : (ns : String) (m : Memory) → member ns (stop_all m).live ≡ false
unfolding stop_all
live-stop_all ns m = ground (arith, live-stop_each ns m.live m)

live-follow :
    (ns : String) (names : List String) (m : Memory)
    → member ns (follow names m).live ≡ member ns names
unfolding follow
live-follow ns names m = ground (
  arith,
  live-start_each ns names (stop_each (select (outside names) m.live) m),
  live-stop_each ns (select (outside names) m.live) m,
  member-select (outside names) ns m.live,
)

torn_down-stop_each :
    (ns : String) (names : List String) (m : Memory)
    → member ns (stop_each names m).torn_down ≡ (member ns m.torn_down || member ns names)
unfolding stop_each stop_namespace clear_namespace_state
torn_down-stop_each ns [] m = ground arith
torn_down-stop_each ns (n ∷ names) m =
    ground (arith, torn_down-stop_each ns names (stop_namespace n m))

torn_down-start_namespace :
    (ns n : String) (m : Memory) → member ns (start_namespace n m).torn_down ≡ member ns m.torn_down
unfolding start_namespace
torn_down-start_namespace ns n m = ground arith

torn_down-start_each :
    (ns : String) (names : List String) (m : Memory)
    → member ns (start_each names m).torn_down ≡ member ns m.torn_down
unfolding start_each
torn_down-start_each ns [] m = refl
torn_down-start_each ns (n ∷ names) m =
    ground
      (arith, torn_down-start_namespace ns n m, torn_down-start_each ns names (start_namespace n m))

torn_down-follow :
    (ns : String) (names : List String) (m : Memory)
    → member ns (follow names m).torn_down
      ≡ (member ns m.torn_down || (member ns m.live && not (member ns names)))
unfolding follow
torn_down-follow ns names m = ground (
  arith,
  torn_down-start_each ns names (stop_each (select (outside names) m.live) m),
  torn_down-stop_each ns (select (outside names) m.live) m,
  member-select (outside names) ns m.live,
)

-- After a reconciliation exactly the namespaces of the scope are watched, and none when there is no run,
-- when it has no namespaces or when it is over, whatever was watched before.
pub reconcile_lem :
    (sc : RunScope) (w : Watcher) (ns : String)
    → member ns (reconcile sc w).memory.live ≡ (not (is_idle sc) && member ns sc.namespaces)
unfolding reconcile stop change_run forget_torn_down
reconcile_lem sc w ns = elim (Bool-cases (is_idle sc)) [
  | inl q ↦ rw q (live-stop_all ns w.memory)
  | inr q ↦ rw q (live-follow ns sc.namespaces (forget_torn_down sc (change_run sc w)).memory)
]

-- Within a run exactly the namespaces that were watched and no longer are come to count as torn down.
reconcile-torn_down :
    (sc : RunScope) (w : Watcher) (ns : String)
    → str_eq w.run_id sc.run_id ≡ true
    → str_eq sc.run_id w.torn_down_run ≡ true
    → is_idle sc ≡ false
    → member ns (reconcile sc w).memory.torn_down
      ≡ (member ns w.memory.torn_down || (member ns w.memory.live && not (member ns sc.namespaces)))
unfolding reconcile change_run forget_torn_down
reconcile-torn_down sc w ns same_run known q =
    rw (q, same_run, known) (torn_down-follow ns sc.namespaces w.memory)
