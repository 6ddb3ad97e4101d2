-- ===== src/Clear/Listing.antt =====
-- internal/clear/releases.go, recommend.go and driver.go: what the survey reads with helm and kubectl. The JSON
-- decoders, `time.Parse`, `strings.TrimSpace` and `strconv.Itoa` are parameters, collected in a record.
pub mod Pages
use aicrme.Prelude.{
  ℕ, zero, suc, ◌+◌, String, str_append, str_eq, List, [], ◌∷◌, ◌++◌, Option, none, some, ltb, ◌==◌,
  if◌then◌else◌, length,
}
use aicrme.Clear.Command.{failure, because, Result, ok, failed, Exec}

pub record HelmRelease : Type 0 where
  pub name : String
  pub namespace : String
  pub revision : String
  pub updated : String
  pub status : String
  pub chart : String
  pub app_version : String

pub record HelmHistoryEntry : Type 0 where
  pub revision : ℕ
  pub updated : String
  pub status : String

-- A time is in nanoseconds from Go's zero time on. `time_parse` has the layout first.
pub record Formats : Type 0 where
  pub itoa : ℕ → String
  pub atoi : String → Option ℕ
  pub trim_space : String → String
  pub time_parse : String → String → Option ℕ
  pub date_of : ℕ → String
  pub releases_of : String → Result (List HelmRelease)
  pub history_of : String → Result (List HelmHistoryEntry)

abbrev pub helm_page_size : ℕ
helm_page_size = 256

-- `fmt.Errorf("…: %w", err)`
abbrev pub wrap {ℓ} : {A : Type ℓ} → String → Result A → Result A
wrap text (ok a) = ok a
wrap text (failed e) = failed (because text e)

abbrev pub then_do {ℓ κ} : {A : Type ℓ} {B : Type κ} → Result A → (A → Result B) → Result B
then_do (ok a) k = k a
then_do (failed e) k = failed e

abbrev pub list_argv : (ℕ → String) → ℕ → List String
list_argv itoa offset =
    "helm"
    ∷ "list"
    ∷ "-A"
    ∷ "-o"
    ∷ "json"
    ∷ "--deployed"
    ∷ "--failed"
    ∷ "--pending"
    ∷ "--max"
    ∷ itoa helm_page_size
    ∷ (if offset == 0 then [] else "--offset" ∷ itoa offset ∷ [])

abbrev pub history_argv : String → String → List String
history_argv name namespace = "helm" ∷ "history" ∷ name ∷ "-n" ∷ namespace ∷ "-o" ∷ "json" ∷ []

abbrev pub driver_argv : List String
driver_argv =
    "kubectl" ∷ "get" ∷ "daemonset" ∷ "-A" ∷ "-o"
    ∷ "jsonpath={.items[?(@.metadata.name==\"nvidia-driver-daemonset\")].metadata.namespace}"
    ∷ "--request-timeout=15s" ∷ []

-- One call of `helm list`, decoded.
unfoldable pub list_page : Formats → Exec → ℕ → Result (List HelmRelease)
list_page formats exec offset =
    then_do (wrap "listing helm releases" (exec (list_argv formats.itoa offset)))
      (λ output. wrap "parsing helm's release list" (formats.releases_of output))

-- What the loop of `listReleases` does with a page; `more` is the next round.
unfoldable pub turn_page :
    (List HelmRelease → Option (Result (List HelmRelease)))
    → List HelmRelease
    → Result (List HelmRelease)
    → Option (Result (List HelmRelease))
turn_page more all (failed e) = some (failed e)
turn_page more all (ok page) =
    let rest = more (all ++ page) in
    if ltb (length page) helm_page_size then some (ok (all ++ page)) else rest

-- The loop on fuel: `none` when the fuel is spent.
unfoldable pub list_from :
    Formats → Exec → ℕ → ℕ → List HelmRelease → Option (Result (List HelmRelease))
unfolding list_page turn_page
list_from formats exec zero offset all = none
list_from formats exec (suc fuel) offset all =
    turn_page (list_from formats exec fuel (offset + helm_page_size)) all
      (list_page formats exec offset)

unfoldable pub list_releases : Formats → Exec → ℕ → Option (Result (List HelmRelease))
unfolding list_from
list_releases formats exec fuel = list_from formats exec fuel 0 []

abbrev helm_time_layouts : List String
helm_time_layouts =
    "2006-01-02T15:04:05.999999999Z07:00" ∷ "2006-01-02 15:04:05.999999999 -0700 MST" ∷ []

unfoldable pub parse_with : Formats → List String → String → Result ℕ
parse_with formats [] s = failed (failure (str_append "unrecognised helm timestamp " s))
parse_with formats (layout ∷ layouts) s =
    let rest = parse_with formats layouts s in or_else (formats.time_parse layout s) rest
  where
    or_else : Option ℕ → Result ℕ → Result ℕ
    or_else none rest = rest
    or_else (some t) rest = ok t

unfoldable pub parse_helm_time : Formats → String → Result ℕ
unfolding parse_with
parse_helm_time formats s = parse_with formats helm_time_layouts (formats.trim_space s)

unfoldable pub revision_one : Formats → String → List HelmHistoryEntry → Result ℕ
unfolding parse_helm_time
revision_one formats release [] =
    failed (failure (str_append "no revision 1 in history for " release))
revision_one formats release (h ∷ entries) =
    let rest = revision_one formats release entries in
    if h.revision == 1 then parse_helm_time formats h.updated else rest

abbrev pub release_key : String → String → String
release_key name namespace = str_append namespace (str_append "/" name)

unfoldable pub first_deployed : Formats → Exec → String → String → Result ℕ
unfolding revision_one
first_deployed formats exec name namespace =
    let key = release_key name namespace in
    then_do (wrap (str_append "reading history for " key) (exec (history_argv name namespace)))
      (λ output.
        then_do (wrap (str_append "parsing history for " key) (formats.history_of output))
          (revision_one formats key))

pub data DriverMode : Type 0 where
  driver_managed driver_host driver_unknown : DriverMode

unfoldable pub driver_mode : Formats → Exec → DriverMode
driver_mode formats exec = seen (exec driver_argv)
  where
    seen : Result String → DriverMode
    seen (failed e) = driver_unknown
    seen (ok output) = if str_eq (formats.trim_space output) "" then driver_host else driver_managed
