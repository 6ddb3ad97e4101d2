-- ===== src/Clear/Recommend.antt =====
-- internal/clear/recommend.go: which of the releases found are suggested for removal.
pub mod Suggested
use aicrme.Prelude.{
  ℕ, ◌-◌, ◌/◌, ◌^◌, min, String, str_append, str_eq, Bool, true, false, not, List, [], ◌∷◌, ltb,
  leb, ◌==◌, if◌then◌else◌,
}
use Prim.Native.String.{slice, len}
use aicrme.Clear.Listing.{Formats}

pub record Release : Type 0 where
  pub name : String
  pub namespace : String
  pub chart : String
  pub chart_version : String
  pub component : String
  pub revision : ℕ
  pub first_deployed : ℕ
  pub last_updated : ℕ
  pub node_level : Bool
  pub recommended : Bool
  pub reason : String

-- An hour, in nanoseconds.
abbrev pub install_window : ℕ
install_window = 3600000000000

abbrev has_prefix : String → String → Bool
has_prefix s p = str_eq (slice s 0 (len p)) p

unfoldable pub is_node_level : String → String → Bool
is_node_level component namespace =
    if str_eq namespace "skyhook" then true else has_prefix component "nodewright"

abbrev incomplete_evidence_reason : String
incomplete_evidence_reason =
    "this console could not establish when every component here was first deployed, so it cannot tell which of them belong to one install"

abbrev node_level_reason : String
node_level_reason =
    "node-level: removing this leaves the node's kernel parameters and sysctls exactly as they are, with nothing left that knows how to revert them"

unfoldable pub human_gap : (ℕ → String) → ℕ → String
human_gap itoa d =
    let hours = d / install_window in
    let days = hours / 24 in
    if leb 60 days
    then str_append (itoa (days / 30)) " months"
    else if leb 1 days
    then str_append (itoa days) " days"
    else str_append (itoa hours) " hours"

-- `newest.Sub(r.FirstDeployed)`, which stops at the largest duration.
abbrev pub gap : ℕ → ℕ → ℕ
gap newest t = min (newest - t) (2 ^ 63 - 1)

-- The first loop, for `newest` and for the evidence.
unfoldable pub newest_of : List Release → ℕ → ℕ
newest_of [] newest = newest
newest_of (r ∷ rs) newest =
    newest_of rs (if ltb newest r.first_deployed then r.first_deployed else newest)

unfoldable pub has_evidence : List Release → Bool → Bool
has_evidence [] complete = complete
has_evidence (r ∷ rs) complete = has_evidence rs (if r.first_deployed == 0 then false else complete)

-- The body of the second loop.
unfoldable pub judge : Formats → ℕ → Bool → Release → Release
unfolding human_gap
judge formats newest complete r =
    if r.node_level
    then record r { recommended = false; reason = node_level_reason }
    else if not complete
    then record r { recommended = false; reason = incomplete_evidence_reason }
    else if ltb install_window (gap newest r.first_deployed)
    then record r {
      recommended = false;
      reason = str_append "first deployed " (
          str_append (formats.date_of r.first_deployed) (
            str_append ", " (
              str_append (human_gap formats.itoa (gap newest r.first_deployed))
                " before the rest of this install")));
    }
    else record r { recommended = true }

unfoldable pub judge_each : Formats → ℕ → Bool → List Release → List Release
unfolding judge
judge_each formats newest complete [] = []
judge_each formats newest complete (r ∷ rs) =
    judge formats newest complete r ∷ judge_each formats newest complete rs

unfoldable pub recommend : Formats → List Release → Bool → List Release
unfolding newest_of has_evidence judge_each
recommend formats rs complete = judge_each formats (newest_of rs 0) (has_evidence rs complete) rs
