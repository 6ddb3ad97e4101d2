-- ===== src/Bus/Cluster.antt =====
-- internal/bus/cluster.go: which of two versions of a cluster condition wins.
pub mod Order
use aicrme.Prelude.{ℕ, String, Bool, true, false, not, ◌||◌, str_eq, ltb, ◌==◌, if◌then◌else◌}

-- `iota` constants: the order is the order of declaration.
pub data Severity : Type 0 where
  info warn err : Severity

abbrev pub rank : Severity → ℕ
rank info = 0
rank warn = 1
rank err = 2

pub record ClusterData : Type 0 where
  pub kind : String
  pub namespace : String
  pub name : String
  pub uid : String
  pub container : String
  pub reason : String
  pub ready : ℕ
  pub desired : ℕ
  pub severity : Severity
  pub resolved : Bool
  pub at : ℕ

abbrev pub bool_eq : Bool → Bool → Bool
bool_eq true b = b
bool_eq false b = not b

unfoldable pub supersedes : ClusterData → ClusterData → Bool
supersedes d prev =
    if not (str_eq d.uid prev.uid) || not (str_eq d.reason prev.reason)
    then false
    else if not (d.at == prev.at)
    then ltb prev.at d.at
    else if not (bool_eq d.resolved prev.resolved)
    then d.resolved
    else ltb (rank prev.severity) (rank d.severity)
