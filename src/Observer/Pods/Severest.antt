-- ===== src/Observer/Pods/Severest.antt =====
-- internal/observer/pods.go: which of several troubles is reported.
use aicrme.Prelude.{
  ℕ, suc, ◌≤◌, ◌≡◌, refl, String, false, List, [], ◌∷◌, ◌++◌, Option, none, some, arith, any, All,
  All-append,
}
use aicrme.Bus.Cluster.{rank}
use aicrme.Observer.Pods.{
  ContainerStatus, Pod, Trouble, Worst, pod_trouble, trouble_of, unschedulable, consider, worse,
  worst_rank, waiting_raw_reason, normalize_reason, pod_reason_severity,
}

-- 0 for no trouble, and more for a worse one.
abbrev pub trouble_rank : Option Trouble → ℕ
trouble_rank none = 0
trouble_rank (some t) = suc (rank (pod_reason_severity t.reason))

abbrev pub reason_rank : Option String → ℕ
reason_rank none = 0
reason_rank (some raw) = suc (rank (pod_reason_severity (normalize_reason raw)))

worse-bound :
    (best : Worst) (container : String) (reason : Option String)
    → (worst_rank best ≤ worst_rank (worse best container reason))
      × (reason_rank reason ≤ worst_rank (worse best container reason))
unfolding worse worst_rank
worse-bound best container none = (omega arith, omega arith)
worse-bound best container (some raw) = ground arith

consider-bound :
    (best : Worst) (statuses : List ContainerStatus)
    → (worst_rank best ≤ worst_rank (consider best statuses))
      × All
          (λ cs. reason_rank (waiting_raw_reason cs) ≤ worst_rank (consider best statuses))
          statuses
unfolding consider
consider-bound best [] = (omega arith, tt)
consider-bound best (cs ∷ statuses) =
    let (more, all) = consider-bound (worse best cs.name (waiting_raw_reason cs)) statuses in
    let (kept, this) = worse-bound best cs.name (waiting_raw_reason cs) in
    (omega (arith, more, kept), (omega (arith, more, this), all))

trouble_of-rank : (best : Worst) → trouble_rank (trouble_of best) ≡ worst_rank best
unfolding trouble_of worst_rank
trouble_of-rank none = refl
trouble_of-rank (some (raw, container)) = refl

bounded_by :
    (m n : ℕ) (statuses : List ContainerStatus)
    → m ≤ n
    → All (λ cs. reason_rank (waiting_raw_reason cs) ≤ m) statuses
    → All (λ cs. reason_rank (waiting_raw_reason cs) ≤ n) statuses
bounded_by m n [] h all = tt
bounded_by m n (cs ∷ statuses) h (first, all) =
    (omega (arith, h, first), bounded_by m n statuses h all)

-- Of a pod that the scheduler has placed, the trouble that is reported is at least as severe as that of
-- each container, of the init containers too; in particular a pod with a container in trouble is
-- reported.
pub pod_trouble-severest :
    (pod : Pod)
    → any unschedulable pod.conditions ≡ false
    → All
        (λ cs. reason_rank (waiting_raw_reason cs) ≤ trouble_rank (pod_trouble pod))
        (pod.init_containers ++ pod.containers)
unfolding pod_trouble
pod_trouble-severest pod h =
    let first = consider none pod.init_containers in
    rw (h, trouble_of-rank (consider first pod.containers))
      (All-append _ pod.init_containers pod.containers
        (bounded_by (worst_rank first) (worst_rank (consider first pod.containers))
          pod.init_containers (consider-bound first pod.containers).0
          (consider-bound none pod.init_containers).1)
        (consider-bound first pod.containers).1)
