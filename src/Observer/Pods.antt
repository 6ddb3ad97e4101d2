-- ===== src/Observer/Pods.antt =====
-- internal/observer/pods.go: the trouble that a pod is in. A pod is what the API server tells of it.
pub mod Severest
use aicrme.Prelude.{
  ℕ, suc, String, str_eq, Bool, ◌&&◌, ◌||◌, List, [], ◌∷◌, Option, none, some, ltb, any,
  if◌then◌else◌,
}
use aicrme.Bus.Cluster.{Severity, warn, err, rank}

-- `stateKey`
pub record StateKey : Type 0 where
  pub kind : String
  pub namespace : String
  pub name : String
  pub uid : String

-- `waiting` is the reason of `State.Waiting`.
pub record ContainerStatus : Type 0 where
  pub name : String
  pub waiting : Option String

-- A `corev1.PodCondition`: its type, its status and its reason.
pub record StatusCondition : Type 0 where
  pub type : String
  pub status : String
  pub reason : String

pub record Controller : Type 0 where
  pub kind : String
  pub name : String
  pub uid : String

pub record Pod : Type 0 where
  pub namespace : String
  pub name : String
  pub uid : String
  pub conditions : List StatusCondition
  pub init_containers : List ContainerStatus
  pub containers : List ContainerStatus
  pub controller : Option Controller

abbrev pub kind_pod : String
kind_pod = "Pod"

unfoldable pub pod_key : Pod → StateKey
pod_key pod = record { kind = kind_pod; namespace = pod.namespace; name = pod.name; uid = pod.uid }

unfoldable pub normalize_reason : String → String
normalize_reason raw = if str_eq raw "ErrImagePull" then "ImagePullBackOff" else raw

unfoldable pub pod_reason_severity : String → Severity
pod_reason_severity reason =
    if str_eq reason "CrashLoopBackOff" || str_eq reason "Unschedulable"
    then Severity.err
    else Severity.warn

abbrev pub is_tracked : String → Bool
is_tracked reason =
    str_eq reason "ImagePullBackOff"
    || str_eq reason "ErrImagePull"
    || str_eq reason "CrashLoopBackOff"

unfoldable pub waiting_raw_reason : ContainerStatus → Option String
waiting_raw_reason cs = elim cs.waiting [
  | none ↦ none
  | some reason ↦ if is_tracked reason then some reason else none
]

-- The raw reason and the container of the worst trouble so far.
abbrev pub Worst : Type 0
Worst = Option (String × String)

-- `bestSeverity`, counted from -1.
unfoldable pub worst_rank : Worst → ℕ
unfolding normalize_reason pod_reason_severity
worst_rank none = 0
worst_rank (some (raw, container)) = suc (rank (pod_reason_severity (normalize_reason raw)))

unfoldable pub worse : Worst → String → Option String → Worst
unfolding worst_rank
worse best container none = best
worse best container (some raw) =
    if ltb (worst_rank best) (worst_rank (some (raw, container)))
    then some (raw, container)
    else best

unfoldable pub consider : Worst → List ContainerStatus → Worst
unfolding worse waiting_raw_reason
consider best [] = best
consider best (cs ∷ statuses) = consider (worse best cs.name (waiting_raw_reason cs)) statuses

pub record Trouble : Type 0 where
  pub reason : String
  pub detail : String
  pub container : String

abbrev pub unschedulable : StatusCondition → Bool
unschedulable c =
    str_eq c.type "PodScheduled" && str_eq c.status "False" && str_eq c.reason "Unschedulable"

unfoldable pub trouble_of : Worst → Option Trouble
unfolding normalize_reason
trouble_of none = none
trouble_of (some (raw, container)) =
    some (record { reason = normalize_reason raw; detail = raw; container = container })

unfoldable pub pod_trouble : Pod → Option Trouble
unfolding consider trouble_of
pod_trouble pod =
    if any unschedulable pod.conditions
    then some (record { reason = "Unschedulable"; detail = "Unschedulable"; container = "" })
    else trouble_of (consider (consider none pod.init_containers) pod.containers)
