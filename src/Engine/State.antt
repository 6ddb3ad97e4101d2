-- ===== src/Engine/State.antt =====
-- internal/engine/engine.go: the engine's fields, and the goroutines that work on it.
--
-- A goroutine is its program counter with its local variables. It moves in steps: one step is one
-- section between `e.mu.Lock` and `e.mu.Unlock`, or the return of one call made without the lock (the
-- store, the cluster, a step's `Run`, a channel), whose result the environment chooses.
use aicrme.Prelude.{
  ℕ, ◌+◌, ◌%◌, ◌^◌, String, str_eq, Bool, true, false, List, [], ◌∷◌, Option, none, some, ◌==◌,
  if◌then◌else◌,
}
use aicrme.Bus.Event.{Event, Kind, Level, zero_event}
use aicrme.Engine.Run.{Run, State, failed, Phase, ResidueItem, is_live, unset, phase_text}
use aicrme.Engine.Refusal.{Refusal}

-- What the engine asks of a `Step`: its phase, the decisions that it needs, and whether it is an
-- `ActiveStep` that leaves its workload running.
pub record Step : Type 0 where
  pub phase : Phase
  pub requires : List String
  pub leaves_running : Bool

-- `generation` is a uint64.
pub record Attribution : Type 0 where
  pub run_id : String
  pub phase : Phase
  pub active_action : String
  pub active_index : ℕ
  pub active_total : ℕ
  pub generation : ℕ
  pub terminal : Bool

-- `prove_client` is the pointer with the answer of `Ready`; `teardown` says whether one is set.
-- `epoch` is a uint64. A context and a `done` channel are named by the epoch of the goroutine that
-- they were made for, and so is a `resume` channel: `resume` is the current one, `signals` those with
-- a token in their buffer of one.
pub record Engine : Type 0 where
  pub steps : List Step
  pub prove_client : Option Bool
  pub teardown : Bool
  pub cluster_uid : String
  pub toolchain : List (String × String)
  pub current : Option Run
  pub resume : ℕ
  pub signals : List ℕ
  pub attribution : Attribution
  pub epoch : ℕ
  pub draining : Bool
  pub store_unreadable : Bool
  pub recovered_pending : Bool
  pub cancel : Option ℕ
  pub canceled : List ℕ
  pub closed : List ℕ

unfoldable pub new : List Step → Engine
new steps = record {
  steps = steps;
  prove_client = none;
  teardown = false;
  cluster_uid = "";
  toolchain = [];
  current = none;
  resume = 0;
  signals = [];
  attribution = record {
    run_id = "";
    phase = unset;
    active_action = "";
    active_index = 0;
    active_total = 0;
    generation = 0;
    terminal = false;
  };
  epoch = 0;
  draining = false;
  store_unreadable = false;
  recovered_pending = false;
  cancel = none;
  canceled = [];
  closed = [];
}

-- What a goroutine does once its `finish` is over.
pub data After : Type 0 where
  -- `execute` or `runReset` returns, and the deferred `close(done)` runs.
  goroutine_ends : After
  -- `Stop` clears `recoveredPending` and returns.
  stop_returns : After
  -- `runReset` deletes the record.
  record_deleted : String → After
  -- `ReconcileWorkloads` goes on with its list.
  reconcile_goes_on : After

pub data Thread : Type 0 where
  -- `Start`, `Retry`, `Decide`, `Discard`, `Stop`, `Reset` in the call that they make without the lock
  start_saving : (epoch : ℕ) (id : String) (previous : Option Run) → Thread
  retry_saving : (epoch : ℕ) (id : String) (prev_err : String) (prev_pending : Bool) → Thread
  decide_saving : (epoch : ℕ) (id : String) (prev : Run) → Thread
  discard_deleting : (epoch : ℕ) (previous : Run) (prev_pending : Bool) → Thread
  stop_waiting : (epoch : ℕ) (id : String) → Thread
  stop_recording : (epoch : ℕ) (id : String) → Thread
  stop_ending : Thread
  reset_saving : (epoch : ℕ) (id : String) → Thread
  -- `execute`, `awaitDecisions`, `runStep`
  executing : (epoch : ℕ) → Thread
  checking : (epoch i : ℕ) (s : Step) → Thread
  await_saving : (epoch i : ℕ) (s : Step) (channel : ℕ) (id : String) → Thread
  awaiting : (epoch i : ℕ) (s : Step) (channel : ℕ) → Thread
  step_beginning : (epoch i : ℕ) (s : Step) → Thread
  step_saving : (epoch i : ℕ) (s : Step) (scratch : Run) → Thread
  stepping : (epoch i : ℕ) (s : Step) (scratch : Run) → Thread
  step_failing :
      (epoch i : ℕ) (s : Step) (scratch : Run) (unconfirmed confirmed : Bool) (msg : String)
      → Thread
  fail_clearing : (epoch i : ℕ) (s : Step) (msg : String) → Thread
  merging : (epoch i : ℕ) (s : Step) (scratch : Run) → Thread
  merge_clearing : (epoch i : ℕ) (s : Step) (id : String) → Thread
  merge_saving : (epoch i : ℕ) (s : Step) (id : String) → Thread
  -- `finish`
  finishing : (epoch : ℕ) (state : State) (msg : String) (after : After) → Thread
  finish_clearing : (epoch : ℕ) (id : String) (state : State) (after : After) → Thread
  finish_saving : (epoch : ℕ) (id : String) (state : State) (after : After) → Thread
  -- `runReset`
  reset_reading : (epoch : ℕ) (id : String) → Thread
  reset_stopping : (epoch : ℕ) (id : String) (run : Run) → Thread
  reset_removing : (epoch : ℕ) (id : String) (run : Run) → Thread
  reset_recording :
      (epoch : ℕ) (id : String) (items : List ResidueItem) (incomplete : Bool)
      (abort : Option String)
      → Thread
  reset_concluding : (epoch : ℕ) (id : String) (incomplete : Bool) → Thread
  reset_deleting : (epoch : ℕ) (id : String) → Thread
  reset_ending : (epoch : ℕ) → Thread
  -- a nil pointer was dereferenced: the process is down
  panicked : (epoch : ℕ) → Thread

-- What a step of a goroutine leaves: the engine, the goroutine's next point (none when it is gone) and
-- the events that it published meanwhile.
pub record Moved : Type 0 where
  pub engine : Engine
  pub next : Option Thread
  pub events : List Event

abbrev pub moved : Engine → Thread → Moved
moved e t = record { engine = e; next = some t; events = [] }

abbrev pub ended : Engine → Moved
ended e = record { engine = e; next = none; events = [] }

abbrev pub publishing : List Event → Moved → Moved
publishing evs m = record m { events = evs }

-- What a call to the engine comes to in its first section: an error, or a goroutine of its own.
pub data Answer : Type 0 where
  refused : Refusal → Answer
  accepted : Engine → Thread → Answer

-- An event as the engine hands it to the hub, which numbers and times it.
abbrev pub event : Kind → Level → String → Phase → String → Event
event kind level id phase message = record zero_event {
  kind = kind;
  level = level;
  run_id = id;
  phase = phase_text phase;
  message = message;
}

-- `levelFor`
abbrev pub level_for : State → Level
level_for failed = Level.err
level_for _ = Level.info

-- `e.epoch++` on a uint64.
abbrev pub bump : ℕ → ℕ
bump n = (n + 1) % 2 ^ 64

abbrev pub alive : Engine → ℕ → Bool
alive e epoch = e.epoch == epoch

abbrev pub contains : ℕ → List ℕ → Bool
contains n [] = false
contains n (m ∷ ms) = if m == n then true else contains n ms

abbrev pub without : ℕ → List ℕ → List ℕ
without n [] = []
without n (m ∷ ms) = let rest = without n ms in if m == n then rest else m ∷ rest

-- `e.current != nil && e.current.ID == id`.
abbrev pub is_current : String → Option Run → Bool
is_current id none = false
is_current id (some r) = str_eq r.id id

abbrev pub live : Option Run → Bool
live none = false
live (some r) = is_live r.state

-- A goroutine's deferred `close(done)`.
abbrev pub close_done : ℕ → Engine → Engine
close_done epoch e = record e { closed = epoch ∷ e.closed }
