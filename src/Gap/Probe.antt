-- ===== src/Gap/Probe.antt =====
-- internal/gap/gap.go: the measurements of a snapshot. The types of AICR's package `measurement` are the
-- records of what their methods answer. An `int64` is a number below 2 ^ 64, its two's complement.
use aicrme.Prelude.{
  ℕ, ◌^◌, String, str_eq, Bool, ◌&&◌, List, [], ◌∷◌, Option, none, some, ltb, if◌then◌else◌,
}

-- `size` is the length of `Data`, `has` is `Has`, `text` is `Get` with `String`, and `string_of` and
-- `int_of` are `GetString` and `GetInt64`, `none` for an error.
pub record Subtype : Type 0 where
  pub size : ℕ
  pub has : String → Bool
  pub text : String → String
  pub string_of : String → Option String
  pub int_of : String → Option ℕ

-- `subtype` is `GetSubtype`.
pub record Measurement : Type 0 where
  pub type : String
  pub subtype : String → Option Subtype

unfoldable pub measurement : String → List Measurement → Option Measurement
measurement t [] = none
measurement t (m ∷ ms) = if str_eq m.type t then some m else measurement t ms

-- `p.measurement(t)` and `GetSubtype`, either of which may be nil.
unfoldable pub reading : String → String → List Measurement → Option Subtype
unfolding measurement
reading t name p = elim (measurement t p) [ none ↦ none | some m ↦ m.subtype name ]

abbrev pub is_positive : ℕ → Bool
is_positive n = ltb 0 n && ltb n (2 ^ 63)

-- The names of AICR's constants.
pub record Names : Type 0 where
  pub type_gpu : String
  pub type_k8s : String
  pub type_os : String
  pub type_node_topology : String
  pub gpu_driver_loaded : String
  pub gpu_present : String
  pub gpu_count : String
  pub version : String
