-- ===== src/Clear/Charts.antt =====
-- internal/clear/releases.go: helm's `<chart>-<version>` against the charts of the universe.
pub mod Longest
use Prim.Native.String.{[], ◌∷◌, len}
use Prim.Native.Char.{code}
use mathlib.Core.List.{List, [] as nil, ◌∷◌ as cons}
use aicrme.Prelude.{
  String, str_append, Bool, false, ◌&&◌, Option, none, some, ◌==◌, leb, if◌then◌else◌,
}
use aicrme.Applier.Matcher.{strip}
use aicrme.Clear.Universe.{Component}

-- `strings.TrimPrefix(s, "v")`
abbrev trim_v : String → String
trim_v [] = []
trim_v (c ∷ s) = if code c == 118 then s else c ∷ s

abbrev starts_with_digit : String → Bool
starts_with_digit [] = false
starts_with_digit (c ∷ s) = leb 48 (code c) && leb (code c) 57

unfoldable pub looks_like_version : String → Bool
looks_like_version s = starts_with_digit (trim_v s)

-- The version when the field is of this chart.
unfoldable pub version_of : String → String → Option String
unfolding looks_like_version strip
version_of chart field = valid (strip (str_append chart "-") field)
  where
    valid : Option String → Option String
    valid none = none
    valid (some suffix) = if looks_like_version suffix then some suffix else none

-- The body of the loop after the tests for the version; `best` is what has been found.
unfoldable pub keep_longer :
    String → Component → Option String → Option (Component × String) → Option (Component × String)
keep_longer chart c none best = best
keep_longer chart c (some version) none = some (c, version)
keep_longer chart c (some version) (some (b, v)) =
    if leb (len chart) (len b.chart) then some (b, v) else some (c, version)

-- The body of the loop.
unfoldable pub consider_chart :
    String → String × Component → Option (Component × String) → Option (Component × String)
unfolding version_of keep_longer
consider_chart field (chart, c) best = keep_longer chart c (version_of chart field) best

unfoldable pub match_from :
    String → List (String × Component) → Option (Component × String) → Option (Component × String)
unfolding consider_chart
match_from field nil best = best
match_from field (cons kv charts) best = match_from field charts (consider_chart field kv best)

-- The list stands for the order in which the map is traversed.
unfoldable pub match_chart : String → List (String × Component) → Option (Component × String)
unfolding match_from
match_chart field charts = match_from field charts none
