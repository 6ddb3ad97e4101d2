-- ===== src/Observer/Workloads.antt =====
-- internal/observer/handlers.go: what is narrated of DaemonSets, Deployments and the GPUs of nodes. The
-- maps `workload` and `gpuQty` have one entry for a resource, under the reason that is narrated of it.
-- Counts of replicas are never negative, and a quantity is a number of its smallest unit.
pub mod Capacity
use aicrme.Prelude.{
  ℕ, String, str_append, str_eq, Bool, true, false, List, [], ◌∷◌, Option, none, some, ltb, leb,
  ◌==◌, if◌then◌else◌,
}
use aicrme.Bus.Cluster.{ClusterData, Severity, info, warn}
use aicrme.Observer.Pods.{StateKey}
use aicrme.Observer.Tracked.{Tracked, tracked, track, drop_resource}
use aicrme.Observer.Conditions.{Narration}

pub record DaemonSet : Type 0 where
  pub namespace : String
  pub name : String
  pub uid : String
  pub ready : ℕ
  pub desired : ℕ

-- `replicas` is `Spec.Replicas`, which may be nil.
pub record Deployment : Type 0 where
  pub namespace : String
  pub name : String
  pub uid : String
  pub ready : ℕ
  pub replicas : Option ℕ
  pub generation : ℕ
  pub observed_generation : ℕ

-- `gpus` is the entry of `Status.Allocatable`, if there is one.
pub record Node : Type 0 where
  pub name : String
  pub uid : String
  pub gpus : Option ℕ

abbrev pub reason_rollout : String
reason_rollout = "RolloutProgress"

abbrev pub reason_gpu_allocatable : String
reason_gpu_allocatable = "GPUAllocatable"

-- The maps `workload` and `gpuQty`.
pub record Capacities : Type 0 where
  pub workload : Tracked String
  pub gpu_qty : Tracked ℕ

abbrev pub ds_key : DaemonSet → StateKey
ds_key ds = record { kind = "DaemonSet"; namespace = ds.namespace; name = ds.name; uid = ds.uid }

abbrev pub deploy_key : Deployment → StateKey
deploy_key d = record { kind = "Deployment"; namespace = d.namespace; name = d.name; uid = d.uid }

abbrev pub node_key : Node → StateKey
node_key n = record { kind = "Node"; namespace = ""; name = n.name; uid = n.uid }

abbrev pub deploy_desired : Deployment → ℕ
deploy_desired d = elim d.replicas [ none ↦ 1 | some n ↦ n ]

abbrev pub node_gpus : Node → ℕ
node_gpus n = elim n.gpus [ none ↦ 0 | some q ↦ q ]

-- `decimal` is `%d`.
unfoldable pub ds_summary : (ℕ → String) → DaemonSet → String
ds_summary decimal ds =
    str_append (decimal ds.ready) (str_append "/" (str_append (decimal ds.desired) " nodes ready"))

unfoldable pub deploy_summary : (ℕ → String) → Deployment → String
deploy_summary decimal d =
    str_append (decimal d.ready) (str_append "/" (str_append (decimal (deploy_desired d)) " ready"))

abbrev pub rollout_data : StateKey → ℕ → ℕ → Bool → ClusterData
rollout_data key ready desired resolved = record {
  kind = key.kind;
  namespace = key.namespace;
  name = key.name;
  uid = key.uid;
  container = "";
  reason = reason_rollout;
  ready = ready;
  desired = desired;
  severity = info;
  resolved = resolved;
  at = 0;
}

abbrev pub is_same_summary : Option String → String → Bool
is_same_summary none summary = false
is_same_summary (some prev) summary = str_eq prev summary

unfoldable pub on_daemon_set : (ℕ → String) → DaemonSet → Capacities → Capacities × List Narration
unfolding ds_summary tracked track
on_daemon_set decimal ds m =
    let summary = ds_summary decimal ds in
    if is_same_summary (tracked (ds_key ds) reason_rollout m.workload) summary then (m, []) else (
      record m { workload = track (ds_key ds) reason_rollout summary m.workload },
      record {
        ns = ds.namespace;
        cd = rollout_data (ds_key ds) ds.ready ds.desired (leb ds.desired ds.ready);
      }
          ∷ [],
    )

unfoldable pub on_deployment : (ℕ → String) → Deployment → Capacities → Capacities × List Narration
unfolding deploy_summary tracked track
on_deployment decimal d m =
    let summary = deploy_summary decimal d in
    if ltb d.observed_generation d.generation
    then (m, [])
    else if is_same_summary (tracked (deploy_key d) reason_rollout m.workload) summary
    then (m, [])
    else (
      record m { workload = track (deploy_key d) reason_rollout summary m.workload },
      record {
        ns = d.namespace;
        cd =
            rollout_data (deploy_key d) d.ready (deploy_desired d) (leb (deploy_desired d) d.ready);
      }
          ∷ [],
    )

unfoldable pub allocatable_severity : ℕ → ℕ → Severity
allocatable_severity prev cur = if ltb cur prev then warn else info

unfoldable pub node_data : Node → Severity → Bool → ClusterData
node_data n severity resolved = record {
  kind = "Node";
  namespace = "";
  name = n.name;
  uid = n.uid;
  container = "";
  reason = reason_gpu_allocatable;
  ready = 0;
  desired = 0;
  severity = severity;
  resolved = resolved;
  at = 0;
}

unfoldable pub node_changed : Node → Option ℕ → Capacities → Capacities × List Narration
unfolding track node_data allocatable_severity
node_changed n none m =
    (record m { gpu_qty = track (node_key n) reason_gpu_allocatable (node_gpus n) m.gpu_qty }, [])
node_changed n (some prev) m = if prev == node_gpus n then (m, []) else (
  record m { gpu_qty = track (node_key n) reason_gpu_allocatable (node_gpus n) m.gpu_qty },
  record {
    ns = "";
    cd = node_data n (allocatable_severity prev (node_gpus n)) (leb prev (node_gpus n));
  }
      ∷ [],
)

unfoldable pub on_node : Node → Capacities → Capacities × List Narration
unfolding node_changed tracked
on_node n m = node_changed n (tracked (node_key n) reason_gpu_allocatable m.gpu_qty) m

-- `onAdd` and `onDelete` on a node.
unfoldable pub on_node_add : Node → Capacities → Capacities
unfolding track
on_node_add n m = record m {
  gpu_qty = track (node_key n) reason_gpu_allocatable (node_gpus n) m.gpu_qty;
}

unfoldable pub on_node_delete : Node → Capacities → Capacities × List Narration
unfolding tracked drop_resource node_data
on_node_delete n m = elim (tracked (node_key n) reason_gpu_allocatable m.gpu_qty) [
  | none ↦ (m, [])
  | some prev ↦ (
    record m { gpu_qty = drop_resource (node_key n) m.gpu_qty },
    record { ns = ""; cd = node_data n info true } ∷ [],
  )
]

-- `onAdd` on a DaemonSet and on a Deployment.
unfoldable pub on_daemon_set_add : (ℕ → String) → DaemonSet → Capacities → Capacities
unfolding ds_summary track
on_daemon_set_add decimal ds m = record m {
  workload = track (ds_key ds) reason_rollout (ds_summary decimal ds) m.workload;
}

unfoldable pub on_deployment_add : (ℕ → String) → Deployment → Capacities → Capacities
unfolding deploy_summary track
on_deployment_add decimal d m = record m {
  workload = track (deploy_key d) reason_rollout (deploy_summary decimal d) m.workload;
}

-- `onDelete` on a DaemonSet or a Deployment with these counts.
unfoldable pub on_workload_delete : StateKey → ℕ → ℕ → Capacities → Capacities × List Narration
unfolding tracked drop_resource
on_workload_delete key ready desired m = elim (tracked key reason_rollout m.workload) [
  | none ↦ (m, [])
  | some prev ↦ (
    record m { workload = drop_resource key m.workload },
    record { ns = key.namespace; cd = rollout_data key ready desired true } ∷ [],
  )
]
