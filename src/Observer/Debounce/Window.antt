-- ===== src/Observer/Debounce/Window.antt =====
-- The window of internal/observer/debounce.go: what comes out of it, and when.
use aicrme.Prelude.{
  ◌≡◌, ◌≢◌, ap₂, refl, List, [], ◌∷◌, ◌++◌, true, false, not, ◌||◌, eq_iff, Option, none, some,
  arith, if◌then◌else◌, All,
}
use aicrme.Bus.Cluster.{rank}
use aicrme.Observer.Debounce.{
  ConditionKey, key_eq, PendingCondition, Debouncer, lookup, delete, key_of, passes_through, submit,
  release, stop, Call, submits, releases, stops, step,
}

-- The state after some calls, and all that they publish, in order.
unfoldable pub run : Debouncer → List Call → Debouncer × List PendingCondition
run d [] = (d, [])
run d (c ∷ cs) = ((run (step d c).0 cs).0, (step d c).1 ++ (run (step d c).0 cs).1)

-- An entry waits under its own key, is an arise, and is trouble.
abbrev pub IsWaiting : ConditionKey × PendingCondition → Type 0
IsWaiting (k, p) = (k ≡ key_of p.cd) × (p.cd.resolved ≡ false) × (rank p.cd.severity ≢ 0)

lookup-delete_self :
    (k : ConditionKey) (m : List (ConditionKey × PendingCondition)) → lookup k (delete k m) ≡ none
unfolding lookup delete
lookup-delete_self k [] = refl
lookup-delete_self k ((j, p) ∷ m) = ground (arith, lookup-delete_self k m)

lookup-delete_ne :
    (k l : ConditionKey) (m : List (ConditionKey × PendingCondition))
    → key_eq k l ≡ false
    → lookup l (delete k m) ≡ lookup l m
unfolding lookup delete
lookup-delete_ne k l [] h = refl
lookup-delete_ne k l ((j, p) ∷ m) h = ground (
  arith,
  eq_iff j.uid k.uid,
  eq_iff j.reason k.reason,
  eq_iff j.uid l.uid,
  eq_iff j.reason l.reason,
  eq_iff k.uid l.uid,
  eq_iff k.reason l.reason,
  lookup-delete_ne k l m h,
)

delete-All :
    (k : ConditionKey) (m : List (ConditionKey × PendingCondition))
    → All IsWaiting m
    → All IsWaiting (delete k m)
unfolding delete
delete-All k [] h = tt
delete-All k ((j, p) ∷ m) h = ground (arith, delete-All k m h.1)

pub lookup-IsWaiting :
    (k : ConditionKey) (m : List (ConditionKey × PendingCondition)) (p : PendingCondition)
    → All IsWaiting m
    → lookup k m ≡ some p
    → IsWaiting (k, p)
unfolding lookup
lookup-IsWaiting k [] p h e = cc
lookup-IsWaiting k ((j, q) ∷ m) p h e =
    ground (arith, eq_iff j.uid k.uid, eq_iff j.reason k.reason, lookup-IsWaiting k m p h.1)

-- Every call keeps it so that only unresolved trouble waits, each entry under its own key.
pub step-IsWaiting :
    (d : Debouncer) (c : Call) → All IsWaiting d.pending → All IsWaiting (step d c).0.pending
unfolding step submit release stop
step-IsWaiting d (submits c) h = ground (arith, delete-All (key_of c.cd) d.pending h)
step-IsWaiting d (releases k) h = delete-All k d.pending h
step-IsWaiting d stops h = tt

step_stopped :
    (d : Debouncer) (c : Call)
    → d.stopped ≡ true
    → ((step d c).1 ≡ []) × ((step d c).0.stopped ≡ true)
unfolding step submit release stop
step_stopped d (submits c) h = ground arith
step_stopped d (releases k) h = ground arith
step_stopped d stops h = ground arith

run_stopped : (d : Debouncer) (cs : List Call) → d.stopped ≡ true → (run d cs).1 ≡ []
unfolding run
run_stopped d [] h = refl
run_stopped d (c ∷ cs) h =
    let (silent, still) = step_stopped d c h in ap₂ ◌++◌ silent (run_stopped (step d c).0 cs still)

-- Once stopped, a debouncer publishes nothing more, whatever is submitted and whichever timer fires.
pub run-stop_silent : (d : Debouncer) (cs : List Call) → (run (stop d) cs).1 ≡ []
unfolding stop
run-stop_silent d cs = run_stopped (stop d) cs refl

-- One slot of the window, as a machine of its own.
abbrev pub slot_step :
    Debouncer → Call → ConditionKey → Option PendingCondition → Option PendingCondition
slot_step d (submits c) k s =
    if d.stopped || passes_through d c.cd || not (key_eq (key_of c.cd) k)
    then s
    else if c.cd.resolved
    then none
    else some c
slot_step d (releases j) k s = if key_eq j k then none else s
slot_step d stops k s = none

pub lookup-delete :
    (k l : ConditionKey) (m : List (ConditionKey × PendingCondition))
    → lookup l (delete k m) ≡ (if key_eq k l then none else lookup l m)
unfolding lookup delete
lookup-delete k l [] = ground arith
lookup-delete k l ((j, p) ∷ m) = ground (
  arith,
  eq_iff j.uid k.uid,
  eq_iff j.reason k.reason,
  eq_iff j.uid l.uid,
  eq_iff j.reason l.reason,
  eq_iff k.uid l.uid,
  eq_iff k.reason l.reason,
  lookup-delete k l m,
)

-- The window refines one independent slot for each key: a submission or a timer changes the slot of
-- its own key alone, a resolution empties it, a later arise replaces it, and a stop empties them all.
pub step-slot :
    (d : Debouncer) (c : Call) (k : ConditionKey)
    → lookup k (step d c).0.pending ≡ slot_step d c k (lookup k d.pending)
unfolding step submit release stop lookup
step-slot d (submits c) k = ground (
  arith,
  lookup-delete (key_of c.cd) k d.pending,
  eq_iff c.cd.uid k.uid,
  eq_iff c.cd.reason k.reason,
)
step-slot d (releases j) k = lookup-delete j k d.pending
step-slot d stops k = refl
