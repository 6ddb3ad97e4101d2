-- ===== src/Observer/Workloads/Capacity.antt =====
-- internal/observer/handlers.go: the GPUs of a node that come back in part.
use aicrme.Prelude.{ℕ, ◌<◌, ◌≡◌, eq_iff, false, not, List, ◌++◌, some, arith, ltb}
use aicrme.Observer.Tracked.{tracked, tracked-track, key_eq_iff}
use aicrme.Observer.Conditions.{Narration}
use aicrme.Observer.Conditions.Sweep.{outstanding}
use aicrme.Observer.Workloads.{
  Node, Capacities, node_key, reason_gpu_allocatable, on_node, node_changed, node_data,
}

-- What is narrated when a node has this many GPUs, and then that many.
abbrev pub two_changes : Node → ℕ → ℕ → Capacities → List Narration
two_changes n first second m =
    let (m', ns) = on_node (record n { gpus = some first }) m in
    ns ++ (on_node (record n { gpus = some second }) m').1

-- A loss of GPUs is outstanding while the node has fewer and fewer, but the first GPU that comes back
-- resolves it, however many are still missing.
pub partial_return_resolves :
    (n : Node) (before first second : ℕ) (m : Capacities)
    → tracked (node_key n) reason_gpu_allocatable m.gpu_qty ≡ some before
    → first < before
    → second < before
    → outstanding n.uid reason_gpu_allocatable false (two_changes n first second m)
      ≡ not (ltb first second)
unfolding on_node node_changed node_data outstanding
partial_return_resolves n before first second m h f s = ground (
  arith,
  h,
  f,
  s,
  key_eq_iff (node_key n) (node_key n),
  eq_iff n.uid n.uid,
  tracked-track (node_key n) (node_key n) reason_gpu_allocatable reason_gpu_allocatable first
      m.gpu_qty,
)
