-- ===== src/Clear/Survey.antt =====
-- internal/clear/survey.go: what is on the cluster, and how sure the console is of it.
pub mod Reading
pub mod Verdicts
use aicrme.Prelude.{
  ℕ, ◌+◌, String, str_append, Bool, true, false, not, List, [], ◌∷◌, ◌++◌, Option, none, some, leb,
  ◌==◌, if◌then◌else◌, find, assign,
}
use aicrme.Clear.Command.{Result, ok, failed, Exec}
use aicrme.Clear.Universe.{Component, ComponentUniverse}
use aicrme.Clear.Charts.{match_chart}
use aicrme.Clear.Listing.{
  HelmRelease, Formats, list_releases, parse_helm_time, first_deployed, release_key, DriverMode,
  driver_managed, driver_host, driver_unknown, driver_mode,
}
use aicrme.Clear.Recommend.{Release, is_node_level, recommend}

pub record Survey : Type 0 where
  pub cluster_uid : String
  pub driver_mode : DriverMode
  pub complete : Bool
  pub incomplete : String
  pub releases : List Release

-- The variables of the loop over the releases.
pub record Found : Type 0 where
  pub reasons : List String
  pub order : List (String × ℕ)
  pub matched : List Release

unfoldable pub time_or_zero : Result ℕ → ℕ
time_or_zero (ok t) = t
time_or_zero (failed e) = 0

unfoldable pub found_release : Formats → Exec → HelmRelease → Component → String → Release
unfolding parse_helm_time first_deployed is_node_level time_or_zero
found_release formats exec hr comp version = record {
  name = hr.name;
  namespace = hr.namespace;
  chart = comp.chart;
  chart_version = version;
  component = comp.name;
  revision = or_zero (formats.atoi hr.revision);
  first_deployed = time_or_zero (first_deployed formats exec hr.name hr.namespace);
  last_updated = time_or_zero (parse_helm_time formats hr.updated);
  node_level = is_node_level comp.name hr.namespace;
  recommended = false;
  reason = "";
}
  where
    or_zero : Option ℕ → ℕ
    or_zero none = 0
    or_zero (some n) = n

-- The body of the loop, once the chart is known; a date that cannot be read is 0.
unfoldable pub take_release :
    Formats → Exec → HelmRelease → Option (Component × String) → Found → Found
unfolding found_release
take_release formats exec hr none found = found
take_release formats exec hr (some (comp, version)) found =
    let r = found_release formats exec hr comp version in
    let unread =
      str_append "this console could not read when "
        (str_append (release_key hr.name hr.namespace) " was first deployed") in
    record {
      reasons = if r.first_deployed == 0 then found.reasons ++ unread ∷ [] else found.reasons;
      order = assign (release_key hr.name hr.namespace) comp.order found.order;
      matched = found.matched ++ r ∷ [];
    }

unfoldable pub take_releases :
    Formats → Exec → List (String × Component) → List HelmRelease → Found → Found
unfolding match_chart take_release
take_releases formats exec charts [] found = found
take_releases formats exec charts (hr ∷ raw) found =
    take_releases formats exec charts raw
      (take_release formats exec hr (match_chart hr.chart charts) found)

-- `order[…]`, 0 for a missing key.
unfoldable pub order_of : List (String × ℕ) → Release → ℕ
order_of order r = or_zero (find (release_key r.name r.namespace) order)
  where
    or_zero : Option ℕ → ℕ
    or_zero none = 0
    or_zero (some n) = n

-- `sort.SliceStable` by falling order.
unfoldable pub insert_release : List (String × ℕ) → Release → List Release → List Release
unfolding order_of
insert_release order r [] = r ∷ []
insert_release order r (s ∷ rs) =
    let rest = insert_release order r rs in
    if leb (order_of order s) (order_of order r) then r ∷ s ∷ rs else s ∷ rest

unfoldable pub sort_releases : List (String × ℕ) → List Release → List Release
unfolding insert_release
sort_releases order [] = []
sort_releases order (r ∷ rs) = insert_release order r (sort_releases order rs)

-- `strings.Join(reasons, "; ")`
abbrev join_reasons : List String → String
join_reasons [] = ""
join_reasons (a ∷ []) = a
join_reasons (a ∷ b ∷ rest) = str_append a (str_append "; " (join_reasons (b ∷ rest)))

abbrev pub overlay_reasons : Formats → ComponentUniverse → List String
overlay_reasons formats u =
    if u.complete
    then []
    else str_append "this console could not read " (
        str_append (formats.itoa u.skipped)
          " of AICR's recipe overlays, so a component installed here might not be recognised")
      ∷ []

abbrev pub driver_reasons : DriverMode → List String
driver_reasons driver_unknown =
    "this console could not tell whether the GPU Operator manages this cluster's NVIDIA driver, which decides whether the GPU nodes need rebooting after a removal"
    ∷ []
driver_reasons driver_managed = []
driver_reasons driver_host = []

abbrev pub is_empty {ℓ} : {A : Type ℓ} → List A → Bool
is_empty [] = true
is_empty (a ∷ rest) = false

-- The part after the listing.
unfoldable pub survey_of : Formats → Exec → String → ComponentUniverse → List HelmRelease → Survey
unfolding take_releases driver_mode recommend sort_releases
survey_of formats exec cluster_uid u raw =
    let found =
      take_releases formats exec u.charts raw
        (record { reasons = overlay_reasons formats u; order = []; matched = [] }) in
    let mode = driver_mode formats exec in
    let reasons = found.reasons ++ driver_reasons mode in
    record {
      cluster_uid = cluster_uid;
      driver_mode = mode;
      complete = is_empty reasons;
      incomplete = join_reasons reasons;
      releases = sort_releases found.order (recommend formats found.matched (is_empty reasons));
    }

-- What comes after the listing; `none` when its fuel is spent.
unfoldable pub survey_listed :
    Formats
    → Exec
    → String
    → ComponentUniverse
    → Option (Result (List HelmRelease))
    → Option (Result Survey)
unfolding survey_of
survey_listed formats exec cluster_uid u none = none
survey_listed formats exec cluster_uid u (some (failed e)) = some (failed e)
survey_listed formats exec cluster_uid u (some (ok raw)) =
    some (ok (survey_of formats exec cluster_uid u raw))

-- The universe is what `Universe` answers; the fuel is that of the listing.
unfoldable pub survey :
    Formats → Exec → ℕ → String → Result ComponentUniverse → Option (Result Survey)
unfolding list_releases survey_listed
survey formats exec fuel cluster_uid (failed e) = some (failed e)
survey formats exec fuel cluster_uid (ok u) =
    survey_listed formats exec cluster_uid u (list_releases formats exec fuel)
