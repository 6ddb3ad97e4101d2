-- ===== src/Examples/Capacity.antt =====
-- internal/observer/handlers.go at concrete inputs: eight GPUs, none, and one.
use aicrme.Prelude.{◌≡◌, refl, false, not, [], ◌∷◌, some, ltb, arith}
use aicrme.Observer.Tracked.{tracked, key_eq}
use aicrme.Observer.Conditions.Sweep.{outstanding}
use aicrme.Observer.Workloads.{Node, Capacities, node_key, reason_gpu_allocatable}
use aicrme.Observer.Workloads.Capacity.{two_changes, partial_return_resolves}

abbrev node : Node
node = record { name = "n1"; uid = "u7"; gpus = some 8 }

abbrev known : Capacities
known = record { workload = []; gpu_qty = (node_key node, reason_gpu_allocatable, 8) ∷ [] }

partial_return_resolves_example :
    outstanding node.uid reason_gpu_allocatable false (two_changes node 0 1 known) ≡ not (ltb 0 1)
unfolding tracked key_eq
partial_return_resolves_example =
    partial_return_resolves node 8 0 1 known refl (omega arith) (omega arith)
