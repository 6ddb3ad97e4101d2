-- ===== src/Engine/Envelope.antt =====
-- internal/engine/envelope.go: the record of a run as a store keeps it. The calls of encoding/json and
-- compress/gzip are parameters.
pub mod Shedding
pub mod Roundtrip
use Prim.Native.String.{compare, len}
use text.Mathlib.Text.{is_lt}
use aicrme.Prelude.{
  ℕ, zero, suc, ◌+◌, ◌*◌, String, str_eq, Bool, true, false, ◌&&◌, List, [], ◌∷◌, ◌++◌, Option,
  none, some, ltb, leb, ◌==◌, if◌then◌else◌, length,
}
use aicrme.Engine.Run.{
  Run, State, Phase, ComponentState, Workload, Ownership, Residue, Validation, AgentNamespace,
}
use aicrme.Engine.Store.{without_key}

pub record Envelope : Type 0 where
  pub version : ℕ
  pub id : String
  pub state : State
  pub phase : Phase
  pub decisions : List (String × String)
  pub pending : List String
  pub components : List ComponentState
  pub step_index : ℕ
  pub err : String
  pub started_at : ℕ
  pub updated_at : ℕ
  pub artifacts : List (String × String)
  pub truncated : List String
  pub workload : Workload
  pub cleanup_unconfirmed : Bool
  pub ownership : Ownership
  pub residue : Residue
  pub cluster_uid : String
  pub toolchain : List (String × String)
  pub agent_namespace : AgentNamespace
  pub validation : Validation

abbrev pub envelope_version : ℕ
envelope_version = 1

-- `json.Marshal`; a `gzip.Writer` from its first write to its close; `io.ReadAll` over an `io.LimitReader`
-- of that many bytes over a `gzip.Reader`; `json.Unmarshal`. Each may fail.
pub record Packing : Type 0 where
  pub marshal : Envelope → Option String
  pub compress : String → Option String
  pub inflate : ℕ → String → Option String
  pub unmarshal : String → Option Envelope

unfoldable pub gzip_json : Packing → Envelope → Option String
gzip_json packing env = elim (packing.marshal env) [ none ↦ none | some raw ↦ packing.compress raw ]

unfoldable pub gunzip_json : Packing → ℕ → String → Option Envelope
gunzip_json packing max_decompressed blob = elim (packing.inflate (max_decompressed + 1) blob) [
  | none ↦ none
  | some raw ↦ if ltb max_decompressed (len raw) then none else packing.unmarshal raw
]

-- `ephemeralArtifacts`
abbrev pub is_ephemeral : String → Bool
is_ephemeral k = str_eq k "bundle.path"

unfoldable pub persistent : List (String × String) → List (String × String)
persistent [] = []
persistent ((k, v) ∷ artifacts) =
    let rest = persistent artifacts in if is_ephemeral k then rest else (k, v) ∷ rest

unfoldable pub envelope_of : Run → Envelope
unfolding persistent
envelope_of r = record {
  version = envelope_version;
  id = r.id;
  state = r.state;
  phase = r.phase;
  decisions = r.decisions;
  pending = r.pending;
  components = r.components;
  step_index = r.step_index;
  err = r.err;
  started_at = r.started_at;
  updated_at = r.updated_at;
  artifacts = persistent r.artifacts;
  truncated = r.truncated;
  workload = r.workload;
  cleanup_unconfirmed = r.cleanup_unconfirmed;
  ownership = r.ownership;
  residue = r.residue;
  cluster_uid = r.cluster_uid;
  toolchain = r.toolchain;
  agent_namespace = r.agent_namespace;
  validation = r.validation;
}

-- The loop of `largestArtifact`: the larger artifact, and on a tie the lesser key.
abbrev pub larger : String × String → String × String → String × String
larger (best, w) (k, v) =
    if ltb (len w) (len v)
    then (k, v)
    else if len v == len w && is_lt (compare k best)
    then (k, v)
    else (best, w)

unfoldable pub largest_from : String × String → List (String × String) → String × String
largest_from best [] = best
largest_from best (a ∷ artifacts) = largest_from (larger best a) artifacts

unfoldable pub largest_artifact : List (String × String) → String
unfolding largest_from
largest_artifact [] = ""
largest_artifact (a ∷ artifacts) = (largest_from a artifacts).0

-- One round of the loop of `encodeRun`: the largest artifact goes.
unfoldable pub shed_one : Envelope → Envelope
unfolding largest_artifact without_key
shed_one env =
    let key = largest_artifact env.artifacts in
    record env { artifacts = without_key key env.artifacts; truncated = env.truncated ++ key ∷ [] }

abbrev pub must_shed : ℕ → Envelope → String → Bool
must_shed ceiling env blob = ltb 0 (length env.artifacts) && ltb ceiling (len blob)

-- The loop, on as much fuel as there are artifacts; `none` is a failure to encode.
unfoldable pub shed : Packing → ℕ → ℕ → Envelope → String → Option (Envelope × String)
unfolding shed_one gzip_json
shed packing ceiling zero env blob = some (env, blob)
shed packing ceiling (suc fuel) env blob = elim (must_shed ceiling env blob) [
  | false ↦ some (env, blob)
  | true ↦ elim (gzip_json packing (shed_one env)) [
    | none ↦ none
    | some blob' ↦ shed packing ceiling fuel (shed_one env) blob'
  ]
]

pub data Encoded : Type 0 where
  encode_failed too_large : Encoded
  encoded : String → Encoded

unfoldable pub after_shedding : ℕ → Option (Envelope × String) → Encoded
after_shedding ceiling none = encode_failed
after_shedding ceiling (some (env, blob)) =
    if ltb ceiling (len blob) then too_large else encoded blob

unfoldable pub encode_packed : Packing → ℕ → Envelope → Option String → Encoded
unfolding shed after_shedding
encode_packed packing ceiling env none = encode_failed
encode_packed packing ceiling env (some blob) =
    if leb (len blob) ceiling
    then encoded blob
    else after_shedding ceiling (shed packing ceiling (length env.artifacts) env blob)

unfoldable pub encode_run : Packing → ℕ → Run → Encoded
unfolding encode_packed envelope_of gzip_json
encode_run packing ceiling r =
    encode_packed packing ceiling (envelope_of r) (gzip_json packing (envelope_of r))

abbrev pub decompress_multiplier : ℕ
decompress_multiplier = 11

unfoldable pub run_of : Envelope → Run
run_of env = record {
  id = env.id;
  state = env.state;
  phase = env.phase;
  decisions = env.decisions;
  artifacts = env.artifacts;
  pending = env.pending;
  components = env.components;
  workload = env.workload;
  step_index = env.step_index;
  err = env.err;
  cleanup_unconfirmed = env.cleanup_unconfirmed;
  cluster_uid = env.cluster_uid;
  toolchain = env.toolchain;
  started_at = env.started_at;
  updated_at = env.updated_at;
  truncated = env.truncated;
  ownership = env.ownership;
  residue = env.residue;
  validation = env.validation;
  agent_namespace = env.agent_namespace;
}

pub data Decoded : Type 0 where
  decode_failed wrong_version : Decoded
  decoded : Run → Decoded

unfoldable pub decode_unpacked : Option Envelope → Decoded
unfolding run_of
decode_unpacked none = decode_failed
decode_unpacked (some env) =
    if env.version == envelope_version then decoded (run_of env) else wrong_version

unfoldable pub decode_run : Packing → ℕ → String → Decoded
unfolding decode_unpacked gunzip_json
decode_run packing ceiling blob =
    decode_unpacked (gunzip_json packing (ceiling * decompress_multiplier) blob)
