-- ===== src/Examples/Survey.antt =====
-- internal/clear and internal/aicrclient/universe.go at concrete inputs.
use Prim.Native.String.{len}
use aicrme.Prelude.{
  ℕ, ◌+◌, ◌≤◌, ◌≡◌, refl, sym, ap, String, str_eq, Bool, true, false, not, ◌&&◌, List, [], ◌∷◌,
  Option, none, some, arith, ◌⊎◌, All, find, assign, drop, zero, suc, eq_iff, ◌≢◌, drop-nil, ◌==◌,
  if◌then◌else◌,
}
use aicrme.Clear.Command.{Failure, failure, Result, ok, failed, Exec, run_read_only}
use aicrme.Clear.Universe.{Component, ComponentUniverse, Resolution, no_recipe, recipe, universe}
use aicrme.Clear.Universe.Keys.{Distinct, IsMap}
use aicrme.Clear.Charts.{version_of, match_chart}
use aicrme.Clear.Charts.Longest.{rank, Picked, match_chart-Picked, match_chart_any_order}
use aicrme.Clear.Listing.{
  HelmRelease, HelmHistoryEntry, Formats, list_argv, helm_page_size, list_releases,
}
use aicrme.Clear.Listing.Pages.{take, list_releases_complete}
use aicrme.Clear.Recommend.{Release, is_node_level}
use aicrme.Clear.Recommend.Suggested.{is_recent}
use aicrme.Clear.Survey.{survey_of, survey}
use aicrme.Clear.Survey.Reading.{survey-run_read_only}
use aicrme.Clear.Survey.Verdicts.{survey_of-suggests}

abbrev gpu : HelmRelease
gpu = record {
  name = "gpu-operator";
  namespace = "gpu";
  revision = "2";
  updated = "late";
  status = "deployed";
  chart = "gpu-operator-v26.3.3";
  app_version = "";
}

abbrev nfd : HelmRelease
nfd = record gpu { name = "nfd"; updated = "early"; chart = "gpu-0.1" }

abbrev history : String → Result (List HelmHistoryEntry)
history output = ok (
    record { revision = 2; updated = "late"; status = "deployed" }
    ∷ record { revision = 1; updated = output; status = "superseded" }
    ∷ [])

abbrev time_of : String → String → Option ℕ
time_of layout s =
    if str_eq s "late"
    then some 9000000000000
    else if str_eq s "early"
    then some 1000000000000
    else none

abbrev formats : Formats
formats = record {
  itoa = λ n. if n == 0 then "0" else "many";
  atoi = λ s. some 2;
  trim_space = λ s. s;
  time_parse = time_of;
  date_of = λ t. "some day";
  releases_of = λ s. ok (gpu ∷ nfd ∷ []);
  history_of = history;
}

-- `helm history` answers with the date of the first revision, anything else with a text.
abbrev cluster : Exec
cluster [] = failed (failure "no command")
cluster (a ∷ []) = ok "x"
cluster (a ∷ b ∷ []) = ok "x"
cluster (a ∷ b ∷ c ∷ argv) =
    if str_eq c "gpu-operator" then ok "late" else if str_eq c "nfd" then ok "early" else ok "x"

abbrev component_named : String → ℕ → Component
component_named chart order = record {
  name = chart;
  chart = chart;
  namespace = "gpu";
  order = order;
}

abbrev charts : List (String × Component)
charts = ("gpu-operator", component_named "gpu-operator" 2) ∷ ("gpu", component_named "gpu" 1) ∷ []

abbrev reversed : List (String × Component)
reversed =
    ("gpu", component_named "gpu" 1) ∷ ("gpu-operator", component_named "gpu-operator" 2) ∷ []

charts-IsMap : IsMap charts
unfolding Distinct find
charts-IsMap = record { keyed = (refl, (refl, tt)); distinct = (refl, (refl, tt)) }

reversed-IsMap : IsMap reversed
unfolding Distinct find
reversed-IsMap = record { keyed = (refl, (refl, tt)); distinct = (refl, (refl, tt)) }

same_map : (k : String) → find k charts ≡ find k reversed
unfolding find
same_map k = ground (arith, eq_iff "gpu-operator" k, eq_iff "gpu" k, apart)
  where
    apart : ◌≢◌ {A = String} "gpu-operator" "gpu"
    apart e = absurd (ground (arith, (eq_iff "gpu-operator" "gpu").1 e))

found_gpu : find "gpu" charts ≡ some (component_named "gpu" 1)
unfolding find
found_gpu = refl

match_chart-Picked_example :
    (version_of "gpu" "gpu-operator-v26.3.3" ≡ none)
    ⊎ ((len "gpu" + 1 ≤ rank (match_chart "gpu-operator-v26.3.3" charts))
        × Picked "gpu-operator-v26.3.3" charts (match_chart "gpu-operator-v26.3.3" charts))
match_chart-Picked_example =
    match_chart-Picked "gpu-operator-v26.3.3" charts "gpu" (component_named "gpu" 1) charts-IsMap
      found_gpu

match_chart_any_order_example :
    match_chart "gpu-operator-v26.3.3" charts ≡ match_chart "gpu-operator-v26.3.3" reversed
match_chart_any_order_example =
    match_chart_any_order "gpu-operator-v26.3.3" charts reversed charts-IsMap reversed-IsMap
      same_map

longest_chart :
    match_chart "gpu-operator-v26.3.3" reversed ≡ some (component_named "gpu-operator" 2, "v26.3.3")
unfolding match_chart
longest_chart = refl

abbrev known : ComponentUniverse
known = record { charts = charts; complete = true; skipped = 0 }

survey-run_read_only_example :
    survey formats (run_read_only cluster) 1 "uid" (ok known)
    ≡ survey formats cluster 1 "uid" (ok known)
survey-run_read_only_example = survey-run_read_only formats cluster 1 "uid" (ok known)

survey_of-suggests_example :
    All
      (λ r. r.recommended ≡ (
        (survey_of formats cluster "uid" known (gpu ∷ nfd ∷ [])).complete
        && not r.node_level
        && is_recent
            (survey_of formats cluster "uid" known (gpu ∷ nfd ∷ [])).releases
            r.first_deployed))
      (survey_of formats cluster "uid" known (gpu ∷ nfd ∷ [])).releases
survey_of-suggests_example = survey_of-suggests formats cluster "uid" known (gpu ∷ nfd ∷ [])

-- The older of the two releases is not recommended.
abbrev verdicts : List Release → List (String × Bool)
verdicts [] = []
verdicts (r ∷ rs) = (r.name, r.recommended) ∷ verdicts rs

late_one_only :
    verdicts (survey_of formats cluster "uid" known (gpu ∷ nfd ∷ [])).releases
    ≡ ("gpu-operator", true) ∷ ("nfd", false) ∷ []
unfolding survey_of find assign
late_one_only = refl

node_level_names : is_node_level "nodewright-operator" "x" ≡ true
unfolding is_node_level
node_level_names = refl

-- A helm with one release, whose second page is empty.
abbrev one_page : Formats
one_page = record formats { releases_of = λ s. if str_eq s "one" then ok (gpu ∷ []) else ok [] }

abbrev paged : Exec
paged (a ∷ b ∷ c ∷ d ∷ e ∷ f ∷ g ∷ h ∷ i ∷ j ∷ []) = ok "one"
paged argv = ok "none"

abbrev printed : ℕ → String
printed zero = "one"
printed (suc n) = "none"

paged-printed : (offset : ℕ) → paged (list_argv one_page.itoa offset) ≡ ok (printed offset)
paged-printed zero = refl
paged-printed (suc n) = rw (later n) refl
  where
    later : (n : ℕ) → (suc n == 0) ≡ false
    later n = ground arith

decoded :
    (offset : ℕ)
    → one_page.releases_of (printed offset) ≡ ok (take helm_page_size (drop offset (gpu ∷ [])))
decoded zero = refl
decoded (suc n) = ap (λ l. ok (take helm_page_size l)) (sym (drop-nil n))

list_releases_complete_example : list_releases one_page paged 1 ≡ some (ok (gpu ∷ []))
list_releases_complete_example =
    list_releases_complete one_page paged printed (gpu ∷ []) 1 paged-printed decoded (omega arith)

abbrev entries : List (Option Failure × Resolution)
entries =
    (none, recipe (record { name = "nfd"; chart = "gpu"; namespace = "gpu" } ∷ []))
    ∷ (none, no_recipe)
    ∷ []

abbrev partly_known : ComponentUniverse
partly_known = record {
  charts = ("gpu", record (component_named "gpu" 0) { name = "nfd" }) ∷ [];
  complete = false;
  skipped = 1;
}

read_entries : universe none (ok entries) ≡ ok partly_known
unfolding universe find assign
read_entries = refl
