-- ===== src/Examples/Observer.antt =====
-- internal/observer/debounce.go at concrete inputs.
use aicrme.Prelude.{◌≡◌, refl, String, true, false, [], ◌∷◌}
use aicrme.Bus.Cluster.{Severity}
use aicrme.Observer.Debounce.{Debouncer, new_debouncer, PendingCondition, key_of, submits, releases}
use aicrme.Observer.Debounce.Window.{run}
use aicrme.Observer.Debounce.Delay.{info_resolution_overtaken}

abbrev on_node : String → Severity → PendingCondition
on_node reason severity = record {
  ns = "default";
  msg = reason;
  cd = record {
    kind = "node";
    namespace = "";
    name = "gpu-0";
    uid = "uid-1";
    container = "";
    reason = reason;
    ready = 0;
    desired = 0;
    severity = severity;
    resolved = false;
    at = 5;
  };
}

abbrev resolution : Severity → PendingCondition
resolution severity =
    let c = on_node "NotReady" severity in record c { cd = record c.cd { resolved = true; at = 6 } }

abbrev waiting : Debouncer
waiting = new_debouncer 2000000000

abbrev arise : PendingCondition
arise = on_node "NotReady" Severity.warn

-- Another condition of the same node.
abbrev pressure : PendingCondition
pressure = on_node "DiskPressure" Severity.warn

info_resolution_overtaken_example :
    (run waiting
      (submits arise ∷ submits (resolution Severity.info) ∷ releases (key_of arise.cd) ∷ [])).1
    ≡ resolution Severity.info ∷ arise ∷ []
unfolding new_debouncer
info_resolution_overtaken_example =
    info_resolution_overtaken waiting arise (resolution Severity.info) (refl, refl, refl) refl
