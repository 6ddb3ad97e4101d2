-- ===== src/Gap/Report.antt =====
-- internal/gap/gap.go and rules.go: the report.
use aicrme.Prelude.{
  ℕ, String, str_eq, str_append, Bool, true, false, List, [], ◌∷◌, Option, none, some, ◌==◌,
  if◌then◌else◌,
}
use aicrme.Gap.Probe.{Subtype, Measurement, reading, is_positive, Names}
use aicrme.Gap.Counts.{node_count, ClusterGpus, Resolved, resolve_gpus}
use aicrme.Gap.Rules.{Rule, rules, kwok_controller_present}

pub record Gap : Type 0 where
  pub id : String
  pub title : String
  pub detail : String
  pub component : String

pub record Report : Type 0 where
  pub headline : String
  pub detail : String
  pub punchline : String
  pub gaps : List Gap
  pub usable_gpus : ℕ
  pub total_gpus : ℕ
  pub inferred_gpus : Bool
  pub analyzed : Bool
  pub simulated : Bool

unfoldable pub string_at : String → Option Subtype → String
string_at name none = ""
string_at name (some st) = elim (st.string_of name) [ none ↦ "" | some v ↦ v ]

unfoldable pub provider_name : Names → List Measurement → String
unfolding reading string_at
provider_name names p = string_at "provider" (reading names.type_k8s "node" p)

unfoldable pub k8s_server_version : Names → List Measurement → String
unfolding reading string_at
k8s_server_version names p = string_at names.version (reading names.type_k8s "server" p)

unfoldable pub os_pretty_name : Names → List Measurement → String
unfolding reading string_at
os_pretty_name names p = string_at "PRETTY_NAME" (reading names.type_os "release" p)

-- `strings.Join`
unfoldable pub join : String → List String → String
join sep [] = ""
join sep (part ∷ []) = part
join sep (part ∷ next ∷ parts) = str_append part (str_append sep (join sep (next ∷ parts)))

unfoldable pub detail : Names → List Measurement → String
unfolding join k8s_server_version os_pretty_name
detail names p =
    let version = k8s_server_version names p in
    let os = os_pretty_name names p in
    let last = if str_eq os "" then [] else os ∷ [] in
    join ", " (if str_eq version "" then last else str_append "Kubernetes " version ∷ last)

abbrev pub cluster_phrase : String → String
cluster_phrase provider =
    if str_eq provider ""
    then "This cluster"
    else str_append "This is a " (str_append provider " cluster")

-- `decimal` is `%d`.
unfoldable pub headline : (ℕ → String) → Names → List Measurement → ℕ → String
unfolding provider_name node_count
headline decimal names p total =
    let phrase = cluster_phrase (provider_name names p) in
    if is_positive total
    then str_append phrase (str_append " with " (str_append (decimal total) " GPUs."))
    else str_append phrase (
        str_append " with "
          (str_append (decimal (node_count names p)) " node(s) and no GPU hardware detected."))

unfoldable pub punchline : (ℕ → String) → Resolved → Bool → String
punchline decimal counts simulated =
    let of_total = str_append (decimal counts.usable) (str_append " of " (decimal counts.total)) in
    if simulated
    then (if counts.total == 0
        then "No GPU hardware detected — this is a simulated cluster."
        else str_append of_total
            " GPUs reported, but this is a simulated cluster — kwok-controller is running fake nodes, so nothing here computed a result.")
    else if counts.total == 0
    then "No GPU hardware detected on this cluster."
    else if counts.inferred
    then str_append of_total " GPUs are usable by a workload today, inferred from one node."
    else str_append of_total " GPUs are usable by a workload today."

unfoldable pub gaps_of : List Rule → List Measurement → List Gap
gaps_of [] p = []
gaps_of (rule ∷ more) p =
    let rest = gaps_of more p in
    if rule.applies p
    then record {
      id = rule.id;
      title = rule.title;
      detail = rule.detail;
      component = rule.component;
    }
      ∷ rest
    else rest

abbrev pub no_report : Report
no_report = record {
  headline = "No cluster snapshot available.";
  detail = "";
  punchline = "Run Discover to capture the cluster's current state.";
  gaps = [];
  usable_gpus = 0;
  total_gpus = 0;
  inferred_gpus = false;
  analyzed = false;
  simulated = false;
}

-- `none` is a nil snapshot, or one with nothing in it.
unfoldable pub analyze : (ℕ → String) → Names → Option (List Measurement) → ClusterGpus → Report
unfolding resolve_gpus kwok_controller_present gaps_of rules headline detail punchline
analyze decimal names none c = no_report
analyze decimal names (some p) c =
    let counts = resolve_gpus names p c in
    let simulated = kwok_controller_present names p in
    record {
      headline = headline decimal names p counts.total;
      detail = detail names p;
      punchline = punchline decimal counts simulated;
      gaps = gaps_of (rules names) p;
      usable_gpus = counts.usable;
      total_gpus = counts.total;
      inferred_gpus = counts.inferred;
      analyzed = true;
      simulated = simulated;
    }
