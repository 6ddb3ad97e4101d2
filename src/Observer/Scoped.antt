-- ===== src/Observer/Scoped.antt =====
-- internal/observer/scoped.go and observer.go: the namespaces that are watched. An entry is its
-- namespace; the informers that it holds are client-go, and what they deliver is a handler's call. Each
-- function runs under the mutex of `scopedInformers`.
pub mod Watching
pub mod Sweeps
pub mod Stranded
use aicrme.Prelude.{
  String, str_eq, Bool, true, false, not, ◌||◌, List, [], ◌∷◌, member, select, if◌then◌else◌,
}
use aicrme.Bus.Event.{Kind, phase}
use aicrme.Observer.Tracked.{Tracked}
use aicrme.Observer.Conditions.{Memory}

pub record RunScope : Type 0 where
  pub run_id : String
  pub namespaces : List String
  pub terminal : Bool

-- `memory` holds `entries` and `everTornDown` as its `live` and `torn_down`, next to the two maps that
-- `onNamespaceStop` sweeps.
pub record Watcher : Type 0 where
  pub run_id : String
  pub torn_down_run : String
  pub memory : Memory

-- `clearNamespacePods` and `clearNamespaceEvents`
unfoldable pub clear_namespace {ℓ} : {V : Type ℓ} → String → Tracked V → Tracked V
clear_namespace ns [] = []
clear_namespace ns ((k, r, v) ∷ m) =
    let rest = clear_namespace ns m in if str_eq k.namespace ns then rest else (k, r, v) ∷ rest

unfoldable pub clear_namespace_state : String → Memory → Memory
unfolding clear_namespace
clear_namespace_state ns m = record m {
  pods = clear_namespace ns m.pods;
  events = clear_namespace ns m.events;
}

-- `delete(s.entries, ns)`
unfoldable pub without : String → List String → List String
without ns [] = []
without ns (n ∷ names) = let rest = without ns names in if str_eq n ns then rest else n ∷ rest

-- `stopNamespaceLocked`
unfoldable pub stop_namespace : String → Memory → Memory
unfolding clear_namespace_state without
stop_namespace ns m =
    clear_namespace_state ns (record m { live = without ns m.live; torn_down = ns ∷ m.torn_down })

unfoldable pub stop_each : List String → Memory → Memory
unfolding stop_namespace
stop_each [] m = m
stop_each (ns ∷ names) m = stop_each names (stop_namespace ns m)

-- `stopAllLocked`
unfoldable pub stop_all : Memory → Memory
unfolding stop_each
stop_all m = stop_each m.live m

unfoldable pub start_namespace : String → Memory → Memory
start_namespace ns m = if member ns m.live then m else record m { live = ns ∷ m.live }

unfoldable pub start_each : List String → Memory → Memory
unfolding start_namespace
start_each [] m = m
start_each (ns ∷ names) m = start_each names (start_namespace ns m)

abbrev pub no_names : List String → Bool
no_names [] = true
no_names (n ∷ names) = false

-- What ends the watching: no run, no namespaces yet, or a run that is over.
abbrev pub is_idle : RunScope → Bool
is_idle sc = str_eq sc.run_id "" || no_names sc.namespaces || sc.terminal

unfoldable pub change_run : RunScope → Watcher → Watcher
unfolding stop_all
change_run sc w =
    if str_eq w.run_id sc.run_id
    then w
    else record w { run_id = sc.run_id; memory = stop_all w.memory }

unfoldable pub forget_torn_down : RunScope → Watcher → Watcher
forget_torn_down sc w =
    if str_eq sc.run_id w.torn_down_run
    then w
    else record w { torn_down_run = sc.run_id; memory = record w.memory { torn_down = [] } }

abbrev pub outside : List String → String → Bool
outside names ns = not (member ns names)

unfoldable pub follow : List String → Memory → Memory
unfolding stop_each start_each
follow names m = start_each names (stop_each (select (outside names) m.live) m)

unfoldable pub stop : Watcher → Watcher
unfolding stop_all
stop w = record w { run_id = ""; memory = stop_all w.memory }

unfoldable pub reconcile : RunScope → Watcher → Watcher
unfolding stop change_run forget_torn_down follow
reconcile sc w =
    let next = forget_torn_down sc (change_run sc w) in
    if is_idle sc then stop w else record next { memory = follow sc.namespaces next.memory }

-- What the loop of `run` waits for, with the scope that it then reads.
pub data Wake : Type 0 where
  stop_closed hub_closed : Wake
  published : Kind → RunScope → Wake
  ticked : RunScope → Wake

-- One round of the loop, and whether there is a next one.
unfoldable pub wake : Wake → Watcher → Watcher × Bool
unfolding stop reconcile
wake stop_closed w = (stop w, false)
wake hub_closed w = (stop w, false)
wake (published phase sc) w = (reconcile sc w, true)
wake (published kind sc) w = (w, true)
wake (ticked sc) w = (reconcile sc w, true)
