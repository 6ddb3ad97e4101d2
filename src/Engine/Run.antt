-- ===== src/Engine/Run.antt =====
-- internal/engine/run.go, workload.go: the record of one run. Go's maps are association lists, byte
-- slices are strings, times are nanoseconds with 0 for the zero time. `Clone` is the identity here: a
-- value of the model shares nothing.
use aicrme.Prelude.{
  ℕ, ◌+◌, String, str_eq, Bool, true, false, not, ◌&&◌, ◌||◌, List, [], ◌∷◌, if◌then◌else◌,
}

-- `Phase` is a string in Go; `unset` is the empty one and `other` any string with no constant.
pub data Phase : Type 0 where
  unset discover recommend bundle apply validate prove : Phase
  other : String → Phase

pub data State : Type 0 where
  idle running awaiting_decision failed active done resetting : State
  unknown : String → State

pub record Workload : Type 0 where
  pub namespace : String
  pub kind : String
  pub name : String

pub record ComponentState : Type 0 where
  pub name : String
  pub index : ℕ
  pub total : ℕ
  pub namespace : String
  pub status : String

pub record ReleaseRef : Type 0 where
  pub name : String
  pub namespace : String

pub record NamespaceRef : Type 0 where
  pub name : String
  pub existed : Bool
  pub snapshot_err : String

pub record Ownership : Type 0 where
  pub releases : List ReleaseRef
  pub namespaces : List NamespaceRef

pub record AgentNamespace : Type 0 where
  pub name : String
  pub uid : String
  pub created : Bool

-- The `Kind` of a residue item.
pub data ItemKind : Type 0 where
  release namespace object : ItemKind

pub record ResidueItem : Type 0 where
  pub kind : ItemKind
  pub name : String
  pub namespace : String
  pub removed : Bool
  pub skip : String
  pub created : Bool
  pub err : String

pub record Residue : Type 0 where
  pub incomplete : Bool
  pub items : List ResidueItem

pub record PhaseSummary : Type 0 where
  pub phase : String
  pub status : String
  pub seconds : ℕ
  pub tests : ℕ
  pub passed : ℕ
  pub failed : ℕ
  pub skipped : ℕ

pub record Validation : Type 0 where
  pub skipped : String
  pub report_path : String
  pub phases : List PhaseSummary
  pub namespace : String

pub record Run : Type 0 where
  pub id : String
  pub state : State
  pub phase : Phase
  pub decisions : List (String × String)
  pub artifacts : List (String × String)
  pub pending : List String
  pub components : List ComponentState
  pub workload : Workload
  pub step_index : ℕ
  pub err : String
  pub cleanup_unconfirmed : Bool
  pub cluster_uid : String
  pub toolchain : List (String × String)
  pub started_at : ℕ
  pub updated_at : ℕ
  pub truncated : List String
  pub ownership : Ownership
  pub residue : Residue
  pub validation : Validation
  pub agent_namespace : AgentNamespace

abbrev pub no_workload : Workload
no_workload = record { namespace = ""; kind = ""; name = "" }

abbrev pub no_ownership : Ownership
no_ownership = record { releases = []; namespaces = [] }

abbrev pub no_residue : Residue
no_residue = record { incomplete = false; items = [] }

abbrev pub no_validation : Validation
no_validation = record { skipped = ""; report_path = ""; phases = []; namespace = "" }

abbrev pub no_agent_namespace : AgentNamespace
no_agent_namespace = record { name = ""; uid = ""; created = false }

-- The zero `Run` of Go but for its maps, which every caller makes.
abbrev pub zero_run : Run
zero_run = record {
  id = "";
  state = unknown "";
  phase = unset;
  decisions = [];
  artifacts = [];
  pending = [];
  components = [];
  workload = no_workload;
  step_index = 0;
  err = "";
  cleanup_unconfirmed = false;
  cluster_uid = "";
  toolchain = [];
  started_at = 0;
  updated_at = 0;
  truncated = [];
  ownership = no_ownership;
  residue = no_residue;
  validation = no_validation;
  agent_namespace = no_agent_namespace;
}

-- The comparisons of a state with a constant.
abbrev pub is_live : State → Bool
is_live running = true
is_live awaiting_decision = true
is_live resetting = true
is_live _ = false

abbrev pub is_terminal : State → Bool
is_terminal done = true
is_terminal failed = true
is_terminal _ = false

abbrev pub is_awaiting : State → Bool
is_awaiting awaiting_decision = true
is_awaiting _ = false

abbrev pub is_failed : State → Bool
is_failed failed = true
is_failed _ = false

abbrev pub is_active : State → Bool
is_active active = true
is_active _ = false

abbrev pub is_done : State → Bool
is_done done = true
is_done _ = false

abbrev pub is_idle : State → Bool
is_idle idle = true
is_idle _ = false

abbrev pub is_resetting : State → Bool
is_resetting resetting = true
is_resetting _ = false

abbrev pub is_apply : Phase → Bool
is_apply apply = true
is_apply _ = false

abbrev pub is_bundle : Phase → Bool
is_bundle bundle = true
is_bundle _ = false

abbrev pub same_kind : ItemKind → ItemKind → Bool
same_kind release release = true
same_kind namespace namespace = true
same_kind object object = true
same_kind _ _ = false

-- `string(phase)` and `string(state)`.
abbrev pub phase_text : Phase → String
phase_text unset = ""
phase_text discover = "discover"
phase_text recommend = "recommend"
phase_text bundle = "bundle"
phase_text apply = "apply"
phase_text validate = "validate"
phase_text prove = "prove"
phase_text (other s) = s

abbrev pub state_text : State → String
state_text idle = "idle"
state_text running = "running"
state_text awaiting_decision = "awaiting_decision"
state_text failed = "failed"
state_text active = "active"
state_text done = "done"
state_text resetting = "resetting"
state_text (unknown s) = s

unfoldable pub has_unconfirmed_cleanup : Run → Bool
has_unconfirmed_cleanup r = is_failed r.state && r.cleanup_unconfirmed

unfoldable pub has_incomplete_teardown : Run → Bool
has_incomplete_teardown r = r.residue.incomplete

abbrev pub has_workload : Workload → Bool
has_workload w = not (str_eq w.namespace "" && str_eq w.kind "" && str_eq w.name "")

unfoldable pub stoppable : Run → Bool
unfolding has_unconfirmed_cleanup
stoppable r =
    is_active r.state || (is_done r.state && has_workload r.workload) || has_unconfirmed_cleanup r

unfoldable pub removed : ItemKind → List ResidueItem → ℕ
removed kind [] = 0
removed kind (it ∷ items) =
    (if same_kind it.kind kind && it.removed then 1 else 0) + removed kind items

unfoldable pub considered : ItemKind → List ResidueItem → ℕ
considered kind [] = 0
considered kind (it ∷ items) = (if same_kind it.kind kind then 1 else 0) + considered kind items
