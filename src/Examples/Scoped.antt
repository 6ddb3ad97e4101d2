-- ===== src/Examples/Scoped.antt =====
-- internal/observer/scoped.go at concrete inputs.
use aicrme.Prelude.{refl, String, false, List, [], ◌∷◌, none, some}
use aicrme.Observer.Pods.{Pod}
use aicrme.Observer.Scoped.{RunScope, Watcher, ticked}
use aicrme.Observer.Scoped.Sweeps.{Tidy}
use aicrme.Observer.Scoped.Stranded.{Delivery, pod_updated, woken, deliver_all, deliver_all-Tidy}

abbrev scope_of : List String → RunScope
scope_of namespaces = record { run_id = "r1"; namespaces = namespaces; terminal = false }

abbrev fresh : Watcher
fresh = record {
  run_id = "";
  torn_down_run = "";
  memory = record { pods = []; events = []; live = []; torn_down = [] };
}

abbrev crashing : Pod
crashing = record {
  namespace = "gpu";
  name = "driver";
  uid = "u1";
  conditions = [];
  init_containers = [];
  containers = record { name = "main"; waiting = some "CrashLoopBackOff" } ∷ [];
  controller = none;
}

-- The namespace is watched, a pod in trouble is seen, the run goes on without the namespace, and a late
-- update of the pod comes in.
abbrev deliveries : List Delivery
deliveries =
    woken (ticked (scope_of ("gpu" ∷ [])))
    ∷ pod_updated crashing
    ∷ woken (ticked (scope_of ("net" ∷ [])))
    ∷ pod_updated crashing
    ∷ []

deliver_all-Tidy_example : Tidy (deliver_all deliveries fresh).memory
deliver_all-Tidy_example = deliver_all-Tidy deliveries fresh (record { pods = refl; events = refl })
