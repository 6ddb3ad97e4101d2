-- ===== src/Engine/FileStore.antt =====
-- internal/engine/filestore.go: the store that keeps its runs in files. A call holds the store's lock.
-- A file is replaced by a rename, so a write leaves either the new content or the old; whether a call
-- of the file system succeeds is chosen by the environment.
pub mod Refines
use aicrme.Prelude.{
  ℕ, String, str_append, str_eq, Bool, not, List, [], Option, none, some, if◌then◌else◌, find,
  assign,
}
use aicrme.Engine.Run.{Run}
use aicrme.Engine.Recover.{ErrorCode, not_found, internal, other_code, Loaded, loaded, load_failed}
use aicrme.Engine.Store.{without_key}
use aicrme.Engine.Envelope.{
  Packing, Encoded, encoded, encode_failed, too_large, encode_run, Decoded, decoded, decode_failed,
  wrong_version, decode_run,
}

-- `filepath.Join` with the store's directory in front, which also cleans what it joins, is the parameter
-- `join`: two identifiers may name one file.
abbrev pub run_path : (String → String) → String → String
run_path join id = join (str_append id ".run")

-- The store's directory: the file `current`, and the files of the records by their paths.
pub record Directory : Type 0 where
  pub pointer : Option String
  pub records : List (String × String)

abbrev pub empty_directory : Directory
empty_directory = record { pointer = none; records = [] }

-- `64 << 20`
abbrev pub file_payload_ceiling : ℕ
file_payload_ceiling = 67108864

-- `none` for no error.
abbrev pub Done : Type 0
Done = Directory × Option ErrorCode

unfoldable pub save_encoded : (String → String) → Bool → Bool → Run → Encoded → Directory → Done
unfolding assign
save_encoded join wrote pointed r encode_failed dir = (dir, some internal)
save_encoded join wrote pointed r too_large dir = (dir, some other_code)
save_encoded join wrote pointed r (encoded blob) dir =
    let written = record dir { records = assign (run_path join r.id) blob dir.records } in
    if not wrote
    then (dir, some internal)
    else if not pointed
    then (written, some internal)
    else (record written { pointer = some r.id }, none)

-- `wrote` and `pointed` are the outcomes of the two calls of `writeAtomic`.
unfoldable pub save : (String → String) → Packing → Bool → Bool → Run → Directory → Done
unfolding save_encoded
save join packing wrote pointed r dir =
    save_encoded join wrote pointed r (encode_run packing file_payload_ceiling r) dir

abbrev pub of_decoded : Decoded → Loaded
of_decoded decode_failed = load_failed other_code
of_decoded wrong_version = load_failed other_code
of_decoded (decoded r) = loaded r

-- `readable` is whether a file that is there can be read.
unfoldable pub load : (String → String) → Packing → Bool → String → Directory → Loaded
unfolding find
load join packing readable id dir = elim (find (run_path join id) dir.records) [
  | none ↦ load_failed not_found
  | some blob ↦
      if readable
      then of_decoded (decode_run packing file_payload_ceiling blob)
      else load_failed internal
]

-- A pointer to a record that is not there is no sign that there is nothing.
abbrev pub dangling : Loaded → Loaded
dangling (load_failed not_found) = load_failed internal
dangling (load_failed internal) = load_failed internal
dangling (load_failed other_code) = load_failed other_code
dangling (loaded r) = loaded r

unfoldable pub load_current : (String → String) → Packing → Bool → Bool → Directory → Loaded
unfolding load
load_current join packing pointer_readable readable dir = elim dir.pointer [
  | none ↦ load_failed not_found
  | some id ↦
      if not pointer_readable
      then load_failed internal
      else if str_eq id ""
      then load_failed not_found
      else dangling (load join packing readable id dir)
]

-- `removed` and `cleared` are the outcomes of the two calls of `os.Remove`.
unfoldable pub delete_current : (String → String) → Bool → Bool → Bool → Directory → Done
unfolding without_key
delete_current join pointer_readable removed cleared dir = elim dir.pointer [
  | none ↦ (dir, none)
  | some id ↦
      if not pointer_readable
      then (dir, some internal)
      else if not removed
      then (dir, some internal)
      else (let left = record dir { records = without_key (run_path join id) dir.records } in
          if not cleared then (left, some internal) else (record left { pointer = none }, none))
]
