-- ===== src/Steps/Apply/Rows.antt =====
-- internal/steps/apply.go: the rows of the components that an install has reported on.
use aicrme.Prelude.{
  ℕ, ◌+◌, ◌≡◌, String, str_eq, eq_iff, ◌&&◌, List, [], ◌∷◌, Option, none, some, arith, ◌==◌,
  if◌then◌else◌,
}
use aicrme.Engine.Run.{ComponentState}
use aicrme.Steps.Apply.{ComponentData, upsert_component, updated_row, new_row}

-- The first row of a name.
unfoldable pub row_of : String → List ComponentState → Option ComponentState
row_of name [] = none
row_of name (row ∷ rows) = if str_eq row.name name then some row else row_of name rows

unfoldable pub rows_of : String → List ComponentState → ℕ
rows_of name [] = 0
rows_of name (row ∷ rows) = (if str_eq row.name name then 1 else 0) + rows_of name rows

-- After a report the row of its component has the reported status and keeps the index, total and
-- namespace that the report lacks; every other row is as it was; and no name has come to have a second
-- row.
pub upsert_component_lem :
    (d : ComponentData) (rows : List ComponentState) (name : String)
    → (row_of name (upsert_component d rows) ≡ (
        if str_eq d.name name
        then some (elim (row_of name rows) [ none ↦ new_row d | some row ↦ updated_row d row ])
        else row_of name rows))
      × (rows_of name (upsert_component d rows)
          ≡ rows_of name rows + (if str_eq d.name name && rows_of name rows == 0 then 1 else 0))
unfolding upsert_component row_of rows_of
upsert_component_lem d [] name = ground arith
upsert_component_lem d (row ∷ rows) name = ground (
  arith,
  eq_iff row.name d.name,
  eq_iff d.name name,
  eq_iff row.name name,
  upsert_component_lem d rows name,
)
