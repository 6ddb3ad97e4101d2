-- ===== src/Clear/Universe.antt =====
-- internal/aicrclient/universe.go: the charts that AICR could install. The catalog and the recipes are
-- what the client of AICR answers.
pub mod Keys
use aicrme.Prelude.{
  ℕ, ◌+◌, String, str_eq, Bool, true, false, List, [], ◌∷◌, Option, none, some, leb, find, assign,
  if◌then◌else◌,
}
use aicrme.Clear.Command.{Failure, Result, ok, failed}

pub record Component : Type 0 where
  pub name : String
  pub chart : String
  pub namespace : String
  pub order : ℕ

pub record ComponentUniverse : Type 0 where
  pub charts : List (String × Component)
  pub complete : Bool
  pub skipped : ℕ

-- A component of a recipe.
pub record ComponentRef : Type 0 where
  pub name : String
  pub chart : String
  pub namespace : String

-- What resolving an entry of the catalog gives; `unresolved` has what the context says by then.
pub data Resolution : Type 0 where
  unresolved : Option Failure → Resolution
  no_recipe : Resolution
  recipe : List ComponentRef → Resolution

unfoldable pub add_chart :
    ℕ → ComponentRef → String → List (String × Component) → List (String × Component)
add_chart pos ref chart charts = join (find chart charts)
  where
    put : String → List (String × Component)
    put ns =
        assign chart (record { name = ref.name; chart = chart; namespace = ns; order = pos }) charts

    join : Option Component → List (String × Component)
    join none = put ref.namespace
    join (some prev) =
        if leb pos prev.order
        then charts
        else put (if str_eq ref.namespace "" then prev.namespace else ref.namespace)

-- The body of the loop over the components of a recipe.
unfoldable pub add_ref : ℕ → ComponentRef → List (String × Component) → List (String × Component)
unfolding add_chart
add_ref pos ref charts =
    let chart = if str_eq ref.chart "" then ref.name else ref.chart in
    if str_eq chart "" then charts else add_chart pos ref chart charts

unfoldable pub add_refs :
    ℕ → List ComponentRef → List (String × Component) → List (String × Component)
unfolding add_ref
add_refs pos [] charts = charts
add_refs pos (ref ∷ refs) charts = add_refs (pos + 1) refs (add_ref pos ref charts)

abbrev skip_entry : ComponentUniverse → ComponentUniverse
skip_entry u = record u { complete = false; skipped = u.skipped + 1 }

-- For each entry, the context's error before it, and what resolving it gives.
unfoldable pub add_entries :
    List (Option Failure × Resolution) → ComponentUniverse → Result ComponentUniverse
unfolding add_refs
add_entries [] u = ok u
add_entries ((some e, r) ∷ entries) u = failed e
add_entries ((none, unresolved (some e)) ∷ entries) u = failed e
add_entries ((none, unresolved none) ∷ entries) u = add_entries entries (skip_entry u)
add_entries ((none, no_recipe) ∷ entries) u = add_entries entries (skip_entry u)
add_entries ((none, recipe refs) ∷ entries) u =
    add_entries entries (record u { charts = add_refs 0 refs u.charts })

-- The context's error at the start, and the entries of the catalog.
unfoldable pub universe :
    Option Failure → Result (List (Option Failure × Resolution)) → Result ComponentUniverse
unfolding add_entries
universe (some e) catalog = failed e
universe none (failed e) = failed e
universe none (ok entries) =
    add_entries entries (record { charts = []; complete = true; skipped = 0 })
