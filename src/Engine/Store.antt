-- ===== src/Engine/Store.antt =====
-- internal/engine/store.go: the store that keeps its runs in memory. A call runs under the store's
-- mutex. `Clone` is the identity on values.
use aicrme.Prelude.{
  String, str_eq, eq_iff, false, List, [], ◌∷◌, Option, none, some, arith, ◌≡◌, refl, if◌then◌else◌,
  find, assign, find-assign,
}
use aicrme.Engine.Run.{Run}

-- `current` is "" when there is none.
pub record MemoryStore : Type 0 where
  pub runs : List (String × Run)
  pub current : String

unfoldable pub new_memory_store : MemoryStore
new_memory_store = record { runs = []; current = "" }

unfoldable pub save : Run → MemoryStore → MemoryStore
unfolding assign
save r m = record { runs = assign r.id r m.runs; current = r.id }

-- `none` is the error with the code for what is not found.
unfoldable pub load : String → MemoryStore → Option Run
unfolding find
load id m = find id m.runs

unfoldable pub load_current : MemoryStore → Option Run
unfolding find
load_current m = if str_eq m.current "" then none else find m.current m.runs

-- `delete(m.runs, k)`
unfoldable pub without_key {ℓ} : {V : Type ℓ} → String → List (String × V) → List (String × V)
without_key k [] = []
without_key k ((j, r) ∷ runs) =
    let rest = without_key k runs in if str_eq j k then rest else (j, r) ∷ rest

unfoldable pub delete_current : MemoryStore → MemoryStore
unfolding without_key
delete_current m = record { runs = without_key m.current m.runs; current = "" }

pub find-without_key {ℓ} :
    {V : Type ℓ} (k j : String) (runs : List (String × V))
    → find j (without_key k runs) ≡ (if str_eq k j then none else find j runs)
unfolding find without_key
find-without_key k j [] = ground arith
find-without_key k j ((i, r) ∷ runs) =
    ground (arith, eq_iff k j, eq_iff i k, eq_iff i j, find-without_key k j runs)

-- A run with an identifier that is saved is the current one and is loaded as it was saved, and the runs
-- saved under other identifiers are as they were.
pub load-save :
    (r : Run) (id : String) (m : MemoryStore)
    → str_eq r.id "" ≡ false
    → (load_current (save r m) ≡ some r)
      × (load id (save r m) ≡ (if str_eq r.id id then some r else load id m))
unfolding save load load_current
load-save r id m h =
    ground (arith, eq_iff r.id r.id, find-assign r.id r.id r m.runs, find-assign r.id id r m.runs)

-- After a deletion there is no current run, the run that was the current one is not found, and the
-- others are as they were.
pub load-delete_current :
    (id : String) (m : MemoryStore)
    → (load_current (delete_current m) ≡ none)
      × (load id (delete_current m) ≡ (if str_eq m.current id then none else load id m))
unfolding delete_current load load_current
load-delete_current id m = (refl, find-without_key m.current id m.runs)
