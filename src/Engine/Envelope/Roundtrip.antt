-- ===== src/Engine/Envelope/Roundtrip.antt =====
-- internal/engine/envelope.go: what is read back of a record that was written.
use Prim.Native.String.{len}
use mathlib.Core.List.{append_assoc, append-nil}
use aicrme.Prelude.{
  ℕ, ◌*◌, ◌≤◌, ◌<◌, ◌≡◌, refl, sym, ap, subst, ◌∙◌, String, List, [], ◌∷◌, ◌++◌, Option, none, some,
  arith, leb, length, Bool-cases, Option-cases, inl, inr, ◌+◌,
}
use aicrme.Engine.Run.{Run}
use aicrme.Engine.Store.{without_key}
use aicrme.Engine.Envelope.{
  Envelope, Packing, gzip_json, gunzip_json, persistent, envelope_of, run_of, shed, encoded,
  too_large, after_shedding, encode_packed, encode_run, decoded, decode_failed, decode_unpacked,
  decode_run,
}
use aicrme.Engine.Envelope.Shedding.{drops, shed-Left}

abbrev pub without_keys : List String → List (String × String) → List (String × String)
without_keys [] artifacts = artifacts
without_keys (k ∷ keys) artifacts = without_keys keys (without_key k artifacts)

-- The run as a store has it: without what is never written, without the artifacts of these keys, and
-- with those keys named as missing.
abbrev pub stored_run : List String → Run → Run
stored_run keys r = record r {
  artifacts = without_keys keys (persistent r.artifacts);
  truncated = r.truncated ++ keys;
}

run_of-drops :
    (keys : List String) (env : Envelope)
    → run_of (drops keys env) ≡ record (run_of env) {
      artifacts = without_keys keys env.artifacts;
      truncated = env.truncated ++ keys;
    }
unfolding run_of
run_of-drops [] env =
    ap (λ t. record (run_of env) { truncated = t }) (sym (append-nil env.truncated))
run_of-drops (k ∷ keys) env =
    run_of-drops keys
      (record env { artifacts = without_key k env.artifacts; truncated = env.truncated ++ k ∷ [] })
    ∙ ap
        (λ t. record (run_of env) {
          artifacts = without_keys (k ∷ keys) env.artifacts;
          truncated = t;
        })
        (append_assoc env.truncated (k ∷ []) keys)

pub drops-truncated :
    (keys : List String) (env : Envelope) → (drops keys env).truncated ≡ env.truncated ++ keys
unfolding run_of
drops-truncated keys env = ap (λ r. r.truncated) (run_of-drops keys env)

drops-version : (keys : List String) (env : Envelope) → (drops keys env).version ≡ env.version
drops-version [] env = refl
drops-version (k ∷ keys) env = drops-version keys _

-- A blob within the ceiling that packs the run's envelope less the dropped artifacts.
abbrev pub Written : Packing → ℕ → Run → String → Type 0
Written packing ceiling r blob =
    (dropped : List String) × (gzip_json packing (drops dropped (envelope_of r)) ≡ some blob)
    × (len blob ≤ ceiling)

module _ (packing : Packing) (ceiling : ℕ) (r : Run) where
  shed-Written :
      (blob : String) (last : Option (Envelope × String))
      → (first : String) → gzip_json packing (envelope_of r) ≡ some first
      → shed packing ceiling (length (envelope_of r).artifacts) (envelope_of r) first ≡ last
      → after_shedding ceiling last ≡ encoded blob
      → Written packing ceiling r blob
  unfolding after_shedding
  shed-Written blob none first p q h = absurd (ground arith)
  shed-Written blob (some (env, kept)) first p q h =
      let (keys, same, packed, over) =
        shed-Left packing ceiling (length (envelope_of r).artifacts) (envelope_of r) first
          (env, kept) (omega arith) p q in
      let fits : (len kept ≤ ceiling) × (kept ≡ blob) = ground arith in
      (
        keys,
        subst (λ e. gzip_json packing e ≡ some blob) same (packed ∙ ap some fits.1),
        rw (sym fits.1) fits.0,
      )

  packed-Written :
      (blob : String) (first : Option String)
      → gzip_json packing (envelope_of r) ≡ first
      → encode_packed packing ceiling (envelope_of r) first ≡ encoded blob
      → Written packing ceiling r blob
  unfolding encode_packed
  packed-Written blob none p h = absurd (ground arith)
  packed-Written blob (some first) p h = elim (Bool-cases (leb (len first) ceiling)) [
    | inl q ↦
        let fits : (len first ≤ ceiling) × (first ≡ blob) = ground arith in
        ([], p ∙ ap some fits.1, rw (sym fits.1) fits.0)
    | inr q ↦
        shed-Written blob
          (shed packing ceiling (length (envelope_of r).artifacts) (envelope_of r) first) first p
          refl (ground arith)
  ]

pub encode_run-Written :
    (packing : Packing) (ceiling : ℕ) (r : Run) (blob : String)
    → encode_run packing ceiling r ≡ encoded blob
    → Written packing ceiling r blob
unfolding encode_run
encode_run-Written packing ceiling r blob h =
    packed-Written packing ceiling r blob (gzip_json packing (envelope_of r)) refl h

-- What is relied on of JSON and gzip: gzip inflates to what was compressed, or to as much of it as is
-- read, and JSON reads the records of this run back.
pub record IsFaithful (packing : Packing) (r : Run) : Type 0 where
  pub inflates :
      (raw blob : String) (limit : ℕ)
      → packing.compress raw ≡ some blob
      → len raw ≤ limit
      → packing.inflate limit blob ≡ some raw
  pub limits :
      (raw blob : String) (limit : ℕ)
      → packing.compress raw ≡ some blob
      → limit < len raw
      → (part : String) × (packing.inflate limit blob ≡ some part) × (len part ≡ limit)
  pub parses :
      (keys : List String) (raw : String)
      → packing.marshal (drops keys (envelope_of r)) ≡ some raw
      → packing.unmarshal raw ≡ some (drops keys (envelope_of r))

module _ (packing : Packing) where
  gzip_json-split :
      (env : Envelope) (blob : String)
      → gzip_json packing env ≡ some blob
      → (raw : String) × (packing.marshal env ≡ some raw) × (packing.compress raw ≡ some blob)
  unfolding gzip_json
  gzip_json-split env blob h = elim (Option-cases (packing.marshal env)) [
    | inl q ↦ absurd (ground (arith, q, h))
    | inr (raw, q) ↦ (raw, q, ground (arith, q, h))
  ]

  gunzip_json-within :
      (n : ℕ) (raw blob : String)
      → packing.inflate (n + 1) blob ≡ some raw
      → len raw ≤ n
      → gunzip_json packing n blob ≡ packing.unmarshal raw
  unfolding gunzip_json
  gunzip_json-within n raw blob h small = ground arith

  gunzip_json-beyond :
      (n : ℕ) (raw blob : String)
      → packing.inflate (n + 1) blob ≡ some raw
      → n < len raw
      → gunzip_json packing n blob ≡ none
  unfolding gunzip_json
  gunzip_json-beyond n raw blob h big = ground arith

  gunzip_json-gzip_json :
      (r : Run) (keys : List String) (raw blob : String) (n : ℕ)
      → IsFaithful packing r
      → packing.marshal (drops keys (envelope_of r)) ≡ some raw
      → packing.compress raw ≡ some blob
      → len raw ≤ n
      → gunzip_json packing n blob ≡ some (drops keys (envelope_of r))
  gunzip_json-gzip_json r keys raw blob n faithful m c small =
      gunzip_json-within n raw blob (faithful.inflates raw blob (n + 1) c (omega arith)) small
      ∙ faithful.parses keys raw m

  -- What is longer than the bound is inflated to one byte more than the bound, and refused.
  gunzip_json-too_long :
      (r : Run) (raw blob : String) (n : ℕ)
      → IsFaithful packing r
      → packing.compress raw ≡ some blob
      → n < len raw
      → gunzip_json packing n blob ≡ none
  gunzip_json-too_long r raw blob n faithful c big = elim (Bool-cases (leb (len raw) (n + 1))) [
    | inl q ↦
        gunzip_json-beyond n raw blob (faithful.inflates raw blob (n + 1) c (ground (arith, q))) big
    | inr q ↦
        let (part, p, size) = faithful.limits raw blob (n + 1) c (ground (arith, q)) in
        gunzip_json-beyond n part blob p (omega arith)
  ]

decode_unpacked-drops :
    (keys : List String) (r : Run)
    → decode_unpacked (some (drops keys (envelope_of r))) ≡ decoded (stored_run keys r)
unfolding decode_unpacked envelope_of run_of
decode_unpacked-drops keys r =
    rw (drops-version keys (envelope_of r)) (ap decoded (run_of-drops keys (envelope_of r)))

-- A record that is written fits under the ceiling, and one whose texts are never longer than eleven times
-- the ceiling is read back as the run that was written, less what is never written and less artifacts
-- that the record then names as missing.
pub decode-encode :
    (packing : Packing) (ceiling : ℕ) (r : Run) (blob : String)
    → IsFaithful packing r
    → ((keys : List String) (raw : String)
        → packing.marshal (drops keys (envelope_of r)) ≡ some raw
        → len raw ≤ ceiling * 11)
    → encode_run packing ceiling r ≡ encoded blob
    → (len blob ≤ ceiling)
      × ((dropped : List String) × (decode_run packing ceiling blob
            ≡ decoded (stored_run dropped r)))
unfolding decode_run
decode-encode packing ceiling r blob faithful small h =
    let (keys, packed, fits) = encode_run-Written packing ceiling r blob h in
    let (raw, m, c) = gzip_json-split packing (drops keys (envelope_of r)) blob packed in
    (
      fits,
      (
        keys,
        rw
            (gunzip_json-gzip_json packing r keys raw blob (ceiling * 11) faithful m c
              (small keys raw m))
            (decode_unpacked-drops keys r),
      ),
    )

-- A record that fits as it is is written whole. If its text is longer than eleven times the ceiling,
-- what was written cannot be read back.
pub fitting_record_lost :
    (packing : Packing) (ceiling : ℕ) (r : Run) (raw blob : String)
    → IsFaithful packing r
    → packing.marshal (envelope_of r) ≡ some raw
    → packing.compress raw ≡ some blob
    → len blob ≤ ceiling
    → ceiling * 11 < len raw
    → (encode_run packing ceiling r ≡ encoded blob)
      × (decode_run packing ceiling blob ≡ decode_failed)
unfolding encode_run decode_run encode_packed decode_unpacked gzip_json
fitting_record_lost packing ceiling r raw blob faithful m c fits big = (
  ground (arith, m, c),
  ap decode_unpacked (gunzip_json-too_long packing r raw blob (ceiling * 11) faithful c big),
)

module _ (packing : Packing) (ceiling : ℕ) (r : Run) where
  -- A record that holds no artifact any more and is still too large.
  abbrev pub NothingLeft : Type 0
  NothingLeft =
      (dropped : List String) × (blob : String) × (gzip_json packing (drops dropped (envelope_of r))
        ≡ some blob)
      × (length (drops dropped (envelope_of r)).artifacts ≡ 0)
      × (ceiling < len blob)

  shed-NothingLeft :
      (last : Option (Envelope × String))
      → (first : String) → gzip_json packing (envelope_of r) ≡ some first
      → shed packing ceiling (length (envelope_of r).artifacts) (envelope_of r) first ≡ last
      → after_shedding ceiling last ≡ too_large
      → NothingLeft
  unfolding after_shedding
  shed-NothingLeft none first p q h = absurd (ground arith)
  shed-NothingLeft (some (env, kept)) first p q h =
      let (keys, same, packed, over) =
        shed-Left packing ceiling (length (envelope_of r).artifacts) (envelope_of r) first
          (env, kept) (omega arith) p q in
      let big : ceiling < len kept = ground arith in
      (
        keys,
        kept,
        subst (λ e. gzip_json packing e ≡ some kept) same packed,
        subst (λ e. length e.artifacts ≡ 0) same (ground (arith, over, big)),
        big,
      )

  packed-NothingLeft :
      (first : Option String)
      → gzip_json packing (envelope_of r) ≡ first
      → encode_packed packing ceiling (envelope_of r) first ≡ too_large
      → NothingLeft
  unfolding encode_packed
  packed-NothingLeft none p h = absurd (ground arith)
  packed-NothingLeft (some first) p h =
      shed-NothingLeft
        (shed packing ceiling (length (envelope_of r).artifacts) (envelope_of r) first) first p refl
        (ground arith)

-- The loop that sheds ends: a run is refused as too large only once no artifact is left to shed and the
-- rest alone is above the ceiling.
pub encode_run-too_large :
    (packing : Packing) (ceiling : ℕ) (r : Run)
    → encode_run packing ceiling r ≡ too_large
    → NothingLeft packing ceiling r
unfolding encode_run
encode_run-too_large packing ceiling r h =
    packed-NothingLeft packing ceiling r (gzip_json packing (envelope_of r)) refl h
