-- ===== src/Engine/FileStore/Refines.antt =====
-- internal/engine/filestore.go and store.go: the file store keeps what the store in memory promises.
use Prim.Native.Char.{code}
use aicrme.Prelude.{
  ◌≡◌, refl, sym, String, str_eq, eq_iff, Bool, true, false, not, ◌&&◌, ◌==◌, ◌∙◌, List, [], ◌∷◌,
  Option, none, some, arith, inl, inr, find, find-assign, is_some, All, Bool-cases, subst,
}
use aicrme.Engine.Run.{Run}
use aicrme.Engine.Recover.{not_found, Loaded, loaded, load_failed}
use aicrme.Engine.Store.{MemoryStore, new_memory_store, without_key, find-without_key}
use aicrme.Engine.Store
use aicrme.Engine.Envelope.{Packing, encoded, encode_run, decoded, decode_run}
use aicrme.Engine.FileStore.{
  Directory, run_path, empty_directory, file_payload_ceiling, save_encoded, save, load, dangling,
  load_current, delete_current,
}

-- No '/' in an identifier.
abbrev pub is_plain : String → Bool
is_plain String.[] = true
is_plain (String.◌∷◌ c id) = not (code c == b'/') && is_plain id

-- What is relied on of `filepath.Join`: identifiers without a separator name files of their own.
abbrev pub Separates : (String → String) → Type 0
Separates join =
    (a b : String)
    → is_plain a ≡ true
    → is_plain b ≡ true
    → run_path join a ≡ run_path join b
    → a ≡ b

path_eq :
    (join : String → String) (a b : String)
    → Separates join
    → is_plain a ≡ true
    → is_plain b ≡ true
    → str_eq (run_path join a) (run_path join b) ≡ str_eq a b
path_eq join a b apart p q = elim (Bool-cases (str_eq a b)) [
  | inl h ↦
      let e : a ≡ b = ground (arith, eq_iff a b) in
      rw e (ground (arith, eq_iff b b, eq_iff (run_path join b) (run_path join b)))
  | inr h ↦ elim (Bool-cases (str_eq (run_path join a) (run_path join b))) [
    | inr g ↦ g ∙ sym h
    | inl g ↦
        let same : run_path join a ≡ run_path join b =
          ground (arith, eq_iff (run_path join a) (run_path join b)) in
        absurd (ground (arith, h, eq_iff a b, apart a b p q same))
  ]
]

-- What a caller of the interface asks of a store.
pub data StoreCall : Type 0 where
  saves : Run → StoreCall
  deletes : StoreCall

-- The calls on the file store, when no call of the file system fails.
unfoldable pub on_files : (String → String) → Packing → List StoreCall → Directory → Directory
unfolding save delete_current
on_files join packing [] dir = dir
on_files join packing (saves r ∷ calls) dir =
    on_files join packing calls (save join packing true true r dir).0
on_files join packing (deletes ∷ calls) dir =
    on_files join packing calls (delete_current join true true true dir).0

-- The same calls on the store in memory, which gets each run as `kept` has it.
unfoldable pub in_memory : (Run → Run) → List StoreCall → MemoryStore → MemoryStore
in_memory kept [] m = m
in_memory kept (saves r ∷ calls) m = in_memory kept calls (Store.save (kept r) m)
in_memory kept (deletes ∷ calls) m = in_memory kept calls (Store.delete_current m)

abbrev pub answer_of : Option Run → Loaded
answer_of none = load_failed not_found
answer_of (some r) = loaded r

-- A run with an identifier without '/' whose record is written, and read back as `kept` has it.
abbrev pub IsKept : Packing → (Run → Run) → StoreCall → Type 0
IsKept packing kept deletes = Unit
IsKept packing kept (saves r) =
    (blob : String) × (encode_run packing file_payload_ceiling r ≡ encoded blob)
    × (decode_run packing file_payload_ceiling blob ≡ decoded (kept r))
    × ((kept r).id ≡ r.id)
    × (str_eq r.id "" ≡ false)
    × (is_plain r.id ≡ true)

abbrev pointer_text : Option String → String
pointer_text none = ""
pointer_text (some id) = id

record Represents (join : String → String) (packing : Packing) (dir : Directory) (m : MemoryStore)
    : Type 0 where
  pointed : pointer_text dir.pointer ≡ m.current
  plain : is_plain m.current ≡ true
  loads :
      (id : String)
      → str_eq id "" ≡ false
      → is_plain id ≡ true
      → load join packing true id dir ≡ answer_of (find id m.runs)
  there : str_eq m.current "" ≡ false → is_some (find m.current m.runs) ≡ true

start-Represents :
    (join : String → String) (packing : Packing)
    → Represents join packing empty_directory new_memory_store
unfolding new_memory_store load find
start-Represents join packing = record {
  pointed = refl;
  plain = refl;
  loads = λ id h g. refl;
  there = λ h. ground (arith, h);
}

module _ (join : String → String) (packing : Packing) (kept : Run → Run)
    (apart : Separates join) where
  save-Represents :
      (r : Run) (dir : Directory) (m : MemoryStore)
      → IsKept packing kept (saves r)
      → Represents join packing dir m
      → Represents join packing (save join packing true true r dir).0 (Store.save (kept r) m)
  unfolding save Store.save load save_encoded
  save-Represents r dir m (blob, wrote, reads, same, named, clear) v = record {
    pointed = ground (arith, wrote, same);
    plain = rw same clear;
    loads = λ id h g. ground (
      arith,
      wrote,
      reads,
      same,
      find-assign (run_path join r.id) (run_path join id) blob dir.records,
      path_eq join r.id id apart clear g,
      find-assign (kept r).id id (kept r) m.runs,
      v.loads id h g,
    );
    there = λ h. ground (
      arith,
      eq_iff (kept r).id (kept r).id,
      find-assign (kept r).id (kept r).id (kept r) m.runs,
    );
  }

  delete-pointed :
      (pointer : Option String) (records : List (String × String)) (m : MemoryStore)
      → Represents join packing (record { pointer = pointer; records = records }) m
      → Represents join packing
          (delete_current join true true true (record { pointer = pointer; records = records })).0
          (Store.delete_current m)
  unfolding delete_current Store.delete_current load
  delete-pointed none records m v = record {
    pointed = refl;
    plain = refl;
    loads = λ id h g.
        ground
          (arith, eq_iff "" id, v.pointed, v.loads id h g, find-without_key m.current id m.runs);
    there = λ h. ground (arith, h);
  }
  delete-pointed (some i) records m v = record {
    pointed = refl;
    plain = refl;
    loads = λ id h g. ground (
      arith,
      v.pointed,
      path_eq join i id apart (subst (λ k. is_plain k ≡ true) (sym v.pointed) v.plain) g,
      v.loads id h g,
      find-without_key m.current id m.runs,
      find-without_key (run_path join i) (run_path join id) records,
    );
    there = λ h. ground (arith, h);
  }

  calls-Represents :
      (calls : List StoreCall) (dir : Directory) (m : MemoryStore)
      → All (IsKept packing kept) calls
      → Represents join packing dir m
      → Represents join packing (on_files join packing calls dir) (in_memory kept calls m)
  unfolding on_files in_memory
  calls-Represents [] dir m ks v = v
  calls-Represents (saves r ∷ calls) dir m ks v =
      calls-Represents calls _ _ ks.1 (save-Represents r dir m ks.0 v)
  calls-Represents (deletes ∷ calls) dir m ks v =
      calls-Represents calls _ _ ks.1 (delete-pointed dir.pointer dir.records m v)

  load_current-pointed :
      (pointer : Option String) (records : List (String × String)) (m : MemoryStore)
      → Represents join packing (record { pointer = pointer; records = records }) m
      → load_current join packing true true (record { pointer = pointer; records = records })
        ≡ answer_of (Store.load_current m)
  unfolding load_current Store.load_current
  load_current-pointed none records m v = rw (sym v.pointed) refl
  load_current-pointed (some i) records m v = elim (Bool-cases (str_eq i "")) [
    | inl q ↦ rw (sym v.pointed, q) refl
    | inr q ↦
        rw (sym v.pointed, q, v.loads i q (subst (λ k. is_plain k ≡ true) (sym v.pointed) v.plain))
          (undangling (find i m.runs) (there_at i v.pointed q))
  ]
    where
      there_at : (j : String) → j ≡ m.current → str_eq j "" ≡ false → is_some (find j m.runs) ≡ true
      there_at j e q =
          subst (λ k. str_eq k "" ≡ false → is_some (find k m.runs) ≡ true) (sym e) v.there q

      undangling : (o : Option Run) → is_some o ≡ true → dangling (answer_of o) ≡ answer_of o
      undangling none h = absurd (ground arith)
      undangling (some r) h = refl

-- Whatever is saved and deleted, the file store with no failing call of the file system answers what
-- the store in memory answers: the current run, and the run of any identifier without '/' but "". Asked
-- is that such identifiers name files of their own, that the saved runs have them, and that the record
-- of each saved run is written and read back; the answers have the runs as read back.
pub file_store_refines :
    (join : String → String) (packing : Packing) (kept : Run → Run) (calls : List StoreCall)
    (id : String)
    → Separates join
    → All (IsKept packing kept) calls
    → str_eq id "" ≡ false
    → is_plain id ≡ true
    → (load_current join packing true true (on_files join packing calls empty_directory)
        ≡ answer_of (Store.load_current (in_memory kept calls new_memory_store)))
      × (load join packing true id (on_files join packing calls empty_directory)
          ≡ answer_of (Store.load id (in_memory kept calls new_memory_store)))
unfolding Store.load
file_store_refines join packing kept calls id apart ks h g =
    let v =
      calls-Represents join packing kept apart calls empty_directory new_memory_store ks
        (start-Represents join packing) in
    (load_current-pointed join packing kept apart _ _ _ v, v.loads id h g)
