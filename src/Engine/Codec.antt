-- ===== src/Engine/Codec.antt =====
-- What internal/engine takes from Go's library where it builds texts: `encoding/json` on the payloads
-- that it puts on the hub and the markers that it reads back, and `%d` of `fmt`.
use aicrme.Prelude.{ℕ, String, Bool, List, Option}
use aicrme.Engine.Run.{ComponentState, ResidueItem, Validation}

-- `componentMarker` of attribution.go.
pub record ComponentMarker : Type 0 where
  pub name : String
  pub index : ℕ
  pub total : ℕ
  pub status : String

-- `residueData` of reset.go; its `Operation` is the constant "teardown".
pub record ResidueData : Type 0 where
  pub name : String
  pub namespace : String
  pub kind : String
  pub status : String
  pub operation : String
  pub reason : String

-- `ResetSummaryData` of reset.go.
pub record ResetSummaryData : Type 0 where
  pub incomplete : Bool
  pub summary : String
  pub items : List ResidueItem

-- `recoveryMarkerData` of recover.go.
pub record RecoveryMarkerData : Type 0 where
  pub truncated : List String
  pub residue_incomplete : Bool

pub record Codec : Type 0 where
  pub decimal : ℕ → String
  pub residue_json : ResidueData → String
  pub summary_json : ResetSummaryData → String
  pub recovery_json : RecoveryMarkerData → String
  pub component_json : ComponentState → String
  pub validation_json : Validation → String
  -- `none` is a payload that `json.Unmarshal` refuses
  pub read_marker : Option String → Option ComponentMarker
