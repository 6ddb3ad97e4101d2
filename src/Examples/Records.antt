-- ===== src/Examples/Records.antt =====
-- internal/engine/envelope.go and filestore.go at concrete inputs.
use Prim.Native.String.{len}
use Prim.Native.String.len
use text.Mathlib.TextLemmas.{append_cancel_left, append_cancel_right}
use mathlib.Core.Option.{some-injective}
use aicrme.Prelude.{
  ℕ, zero, suc, str_append, ◌≤◌, Bool-cases, inl, inr, ◌≡◌, refl, sym, ap, subst, ◌∙◌, String,
  str_eq, eq_iff, true, false, List, [], ◌∷◌, Option, none, some, arith, leb, if◌then◌else◌, All,
}
use aicrme.Engine.Run.{Run, zero_run}
use aicrme.Engine.Store.{new_memory_store}
use aicrme.Engine.Store
use aicrme.Engine.Envelope.{
  Envelope, Packing, envelope_of, encode_run, encoded, decode_run, decoded, decode_failed,
}
use aicrme.Engine.Envelope.Shedding.{drops}
use aicrme.Engine.Envelope.Roundtrip.{
  IsFaithful, drops-truncated, stored_run, decode-encode, fitting_record_lost, encode_run-too_large,
  NothingLeft,
}
use aicrme.Engine.FileStore.{empty_directory, load, load_current}
use aicrme.Engine.FileStore.Refines.{
  StoreCall, saves, deletes, on_files, in_memory, answer_of, IsKept, Separates, file_store_refines,
}
use aicrme.Examples.Samples.{the_id}

abbrev big_run : Run
big_run = record zero_run {
  id = the_id;
  artifacts = ("recipe.json", "{}") ∷ ("snapshot.yaml", "kind: Snapshot") ∷ [];
}

abbrev whole : Envelope
whole = envelope_of big_run

abbrev cut : Envelope
cut = drops ("snapshot.yaml" ∷ []) whole

-- What the JSON writes for the record that names these artifacts as missing.
abbrev marshaled : String → List String → Option String
marshaled long [] = some long
marshaled long (k ∷ []) = if str_eq k "snapshot.yaml" then some "recipe" else none
marshaled long (k ∷ j ∷ keys) = none

-- A text of that many bytes.
abbrev dashes : ℕ → String
dashes zero = ""
dashes (suc n) = String.◌∷◌ "-" (dashes n)

len-dashes : (n : ℕ) → len (dashes n) ≡ n
len-dashes zero = refl
len-dashes (suc n) = len.cons "-" (dashes n) ∙ omega (arith, len-dashes n)

abbrev limited : ℕ → String → String
limited limit raw = if leb (len raw) limit then raw else dashes limit

-- JSON for the whole record, written as `long`, and for the one without its snapshot, and a gzip for
-- these two texts.
abbrev two_records : String → Packing
two_records long = record {
  marshal = λ env. marshaled long env.truncated;
  compress = λ raw.
      if str_eq raw long then some "both" else if str_eq raw "recipe" then some "one" else none;
  inflate = λ limit blob. some (limited limit (if str_eq blob "both" then long else "recipe"));
  unmarshal =
      λ raw. if str_eq raw long then some whole else if str_eq raw "recipe" then some cut else none;
}

module _ (long : String) (other : str_eq "recipe" long ≡ false) where
  inflated :
      (raw blob text : String) (limit : ℕ)
      → raw ≡ text
      → (if str_eq blob "both" then long else "recipe") ≡ text
      → (two_records long).inflate limit blob ≡ some (limited limit raw)
  inflated raw blob text limit e h = ap (λ t. some (limited limit t)) (h ∙ sym e)

  compressed :
      (raw blob : String) (limit : ℕ)
      → (two_records long).compress raw ≡ some blob
      → (two_records long).inflate limit blob ≡ some (limited limit raw)
  compressed raw blob limit h = elim (Bool-cases (str_eq raw long)) [
    | inl q ↦
        let e : (blob ≡ "both") × (raw ≡ long) = ground (arith, eq_iff raw long) in
        inflated raw blob long limit e.1 (rw e.0 refl)
    | inr q ↦
        let e : (blob ≡ "one") × (raw ≡ "recipe") = ground (arith, eq_iff raw "recipe") in
        inflated raw blob "recipe" limit e.1 (rw e.0 refl)
  ]

  parsed :
      (keys : List String) (raw : String)
      → marshaled long keys ≡ some raw
      → (two_records long).unmarshal raw ≡ some (drops keys whole)
  parsed [] raw h =
      subst (λ t. (two_records long).unmarshal t ≡ some whole) (some-injective long raw h)
        (ground (arith, eq_iff long long))
  parsed (k ∷ []) raw h =
      let fits : (k ≡ "snapshot.yaml") × (raw ≡ "recipe") =
        ground (arith, eq_iff k "snapshot.yaml", h) in
      subst (λ t. (two_records long).unmarshal t ≡ some (drops (k ∷ []) whole)) (sym fits.1)
        (subst (λ j. (two_records long).unmarshal "recipe" ≡ some (drops (j ∷ []) whole))
          (sym fits.0) (rw other refl))
  parsed (k ∷ j ∷ keys) raw h = absurd (ground (arith, h))

  two_records-IsFaithful : IsFaithful (two_records long) big_run
  unfolding envelope_of
  two_records-IsFaithful = record {
    inflates =
        λ raw blob limit h small. compressed raw blob limit h ∙ ap some (ground (arith, small));
    limits = λ raw blob limit h big. (
      dashes limit,
      compressed raw blob limit h ∙ ap some (ground (arith, big)),
      len-dashes limit,
    );
    parses =
        λ keys raw h. parsed keys raw (ap (marshaled long) (sym (drops-truncated keys whole)) ∙ h);
  }

-- Texts within a bound, of the two that the JSON above writes.
bounded :
    (keys : List String) (raw : String)
    → (two_records "both of them").marshal (drops keys whole) ≡ some raw
    → len raw ≤ 33
unfolding envelope_of
bounded keys raw h =
    short keys (ap (marshaled "both of them") (sym (drops-truncated keys whole)) ∙ h)
  where
    short : (ks : List String) → marshaled "both of them" ks ≡ some raw → len raw ≤ 33
    short [] p = subst (λ t. len t ≤ 33) (some-injective "both of them" raw p) (omega arith)
    short (k ∷ []) p =
        let e : raw ≡ "recipe" = ground (arith, p) in subst (λ t. len t ≤ 33) (sym e) (omega arith)
    short (k ∷ j ∷ ks) p = absurd (ground (arith, p))

decode-encode_example :
    (len "one" ≤ 3)
    × ((dropped : List String) × (decode_run (two_records "both of them") 3 "one"
          ≡ decoded (stored_run dropped big_run)))
unfolding encode_run
decode-encode_example =
    decode-encode (two_records "both of them") 3 big_run "one"
      (two_records-IsFaithful "both of them" refl) bounded refl

-- A text of more than forty-four bytes.
abbrev long_text : String
long_text = "the recipe and the snapshot, both of them, and all that is in them"

fitting_record_lost_example :
    (encode_run (two_records long_text) 4 big_run ≡ encoded "both")
    × (decode_run (two_records long_text) 4 "both" ≡ decode_failed)
unfolding envelope_of
fitting_record_lost_example =
    fitting_record_lost (two_records long_text) 4 big_run long_text "both"
      (two_records-IsFaithful long_text refl) refl refl (omega arith) (omega arith)

abbrev never_small : Packing
never_small = record {
  marshal = λ env. some "record";
  compress = λ raw. some "long";
  inflate = λ limit blob. none;
  unmarshal = λ raw. none;
}

encode_run-too_large_example : NothingLeft never_small 3 big_run
unfolding encode_run
encode_run-too_large_example = encode_run-too_large never_small 3 big_run refl

abbrev one_record : Packing
one_record = record {
  marshal = λ env. some "record";
  compress = λ raw. some raw;
  inflate = λ limit blob. some blob;
  unmarshal = λ raw. some whole;
}

abbrev calls : List StoreCall
calls = saves big_run ∷ deletes ∷ saves big_run ∷ []

kept : All (IsKept one_record (λ r. r)) calls
unfolding encode_run decode_run
kept =
    (("record", refl, refl, refl, refl, refl), (tt, (("record", refl, refl, refl, refl, refl), tt)))

abbrev runs_dir : String → String
runs_dir name = str_append "/runs/" name

runs_dir-Separates : Separates runs_dir
runs_dir-Separates a b p q e =
    append_cancel_right a b ".run"
      (append_cancel_left "/runs/" (str_append a ".run") (str_append b ".run") e)

file_store_refines_example :
    (load_current runs_dir one_record true true (on_files runs_dir one_record calls empty_directory)
      ≡ answer_of (Store.load_current (in_memory (λ r. r) calls new_memory_store)))
    × (load runs_dir one_record true the_id (on_files runs_dir one_record calls empty_directory)
        ≡ answer_of (Store.load the_id (in_memory (λ r. r) calls new_memory_store)))
file_store_refines_example =
    file_store_refines runs_dir one_record (λ r. r) calls the_id runs_dir-Separates kept refl refl
