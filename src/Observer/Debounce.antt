-- ===== src/Observer/Debounce.antt =====
-- internal/observer/debounce.go: the window in which a new condition waits. Each call runs under the
-- debouncer's mutex; what it passes to `emit` is returned. A timer is not part of the state: `release`
-- may come at any time for any key, which covers every order in which timers fire, also a timer that
-- has fired and waits for the mutex while its entry is replaced.
pub mod Window
pub mod Delay
use aicrme.Prelude.{
  ℕ, List, [], ◌∷◌, Bool, true, false, ◌&&◌, ◌||◌, String, str_eq, Option, none, some, ◌==◌,
  if◌then◌else◌, is_some,
}
use aicrme.Bus.Cluster.{ClusterData, rank}

pub record ConditionKey : Type 0 where
  pub uid : String
  pub reason : String

abbrev pub key_eq : ConditionKey → ConditionKey → Bool
key_eq j k = str_eq j.uid k.uid && str_eq j.reason k.reason

-- `pendingCondition` without its timer; it is also what `emit` is called with.
pub record PendingCondition : Type 0 where
  pub ns : String
  pub msg : String
  pub cd : ClusterData

-- `delay` is in nanoseconds; a negative duration acts as 0.
pub record Debouncer : Type 0 where
  pub delay : ℕ
  pub pending : List (ConditionKey × PendingCondition)
  pub stopped : Bool

unfoldable pub new_debouncer : ℕ → Debouncer
new_debouncer delay = record { delay = delay; pending = []; stopped = false }

unfoldable pub lookup :
    ConditionKey → List (ConditionKey × PendingCondition) → Option PendingCondition
lookup k [] = none
lookup k ((j, p) ∷ m) = if key_eq j k then some p else lookup k m

unfoldable pub delete :
    ConditionKey → List (ConditionKey × PendingCondition) → List (ConditionKey × PendingCondition)
delete k [] = []
delete k ((j, p) ∷ m) = let rest = delete k m in if key_eq j k then rest else (j, p) ∷ rest

abbrev pub key_of : ClusterData → ConditionKey
key_of cd = record { uid = cd.uid; reason = cd.reason }

-- The test for what is published inline.
abbrev pub passes_through : Debouncer → ClusterData → Bool
passes_through d cd =
    d.delay == 0 || str_eq cd.uid "" || str_eq cd.reason "" || rank cd.severity == 0

unfoldable pub submit : PendingCondition → Debouncer → Debouncer × List PendingCondition
unfolding lookup delete
submit c d =
    if d.stopped
    then (d, [])
    else if passes_through d c.cd
    then (d, c ∷ [])
    else if c.cd.resolved
    then (if is_some (lookup (key_of c.cd) d.pending)
        then (record d { pending = delete (key_of c.cd) d.pending }, [])
        else (d, c ∷ []))
    else (record d { pending = (key_of c.cd, c) ∷ delete (key_of c.cd) d.pending }, [])

-- What `release` hands to `emit`.
abbrev pub emitted : Bool → Option PendingCondition → List PendingCondition
emitted stopped none = []
emitted stopped (some p) = if stopped then [] else p ∷ []

unfoldable pub release : ConditionKey → Debouncer → Debouncer × List PendingCondition
unfolding lookup delete
release k d = (record d { pending = delete k d.pending }, emitted d.stopped (lookup k d.pending))

unfoldable pub stop : Debouncer → Debouncer
stop d = record d { stopped = true; pending = [] }

-- The calls that reach one debouncer, and all that they publish, in order.
pub data Call : Type 0 where
  submits : PendingCondition → Call
  releases : ConditionKey → Call
  stops : Call

unfoldable pub step : Debouncer → Call → Debouncer × List PendingCondition
unfolding submit release stop
step d (submits c) = submit c d
step d (releases k) = release k d
step d stops = (stop d, [])
