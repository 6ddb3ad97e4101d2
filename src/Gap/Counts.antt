-- ===== src/Gap/Counts.antt =====
-- internal/gap/rules.go and gap.go: how many GPUs there are.
use aicrme.Prelude.{
  ℕ, ◌*◌, ◌%◌, ◌^◌, ◌≡◌, refl, ◌⊎◌, inl, String, str_eq, Bool, true, false, not, ◌&&◌, List, Option,
  none, some, arith, ltb, ◌==◌, if◌then◌else◌,
}
use aicrme.Gap.Probe.{Subtype, Measurement, reading, is_positive, Names}

unfoldable pub int_at : String → Option Subtype → ℕ
int_at name none = 0
int_at name (some st) = elim (st.int_of name) [ none ↦ 0 | some v ↦ v ]

unfoldable pub node_count : Names → List Measurement → ℕ
unfolding reading int_at
node_count names p = int_at "node-count" (reading names.type_node_topology "summary" p)

unfoldable pub total_gpus : Names → List Measurement → ℕ
unfolding reading int_at
total_gpus names p = int_at names.gpu_count (reading names.type_gpu "hardware" p)

-- `st.Has(k) && st.Get(k).String() == readingTrue`
abbrev pub reads_true : Subtype → String → Bool
reads_true st k = st.has k && str_eq (st.text k) "true"

unfoldable pub usable_of : Names → ℕ → Option Subtype → ℕ
usable_of names total none = 0
usable_of names total (some st) =
    if not (reads_true st names.gpu_present)
    then 0
    else if not (reads_true st names.gpu_driver_loaded)
    then 0
    else total

unfoldable pub usable_gpus : Names → List Measurement → ℕ
unfolding total_gpus reading usable_of
usable_gpus names p =
    if total_gpus names p == 0
    then 0
    else usable_of names (total_gpus names p) (reading names.type_gpu "hardware" p)

-- `ClusterGPUs`
pub record ClusterGpus : Type 0 where
  pub nodes : ℕ
  pub total : ℕ
  pub usable : ℕ
  pub all_nodes : ℕ

pub record Resolved : Type 0 where
  pub total : ℕ
  pub usable : ℕ
  pub inferred : Bool

abbrev pub above_one : ℕ → Bool
above_one n = ltb 1 n && ltb n (2 ^ 63)

unfoldable pub resolve : ℕ → ℕ → ClusterGpus → Resolved
resolve probe_total probe_usable c =
    if is_positive c.total
    then record { total = c.total; usable = c.usable; inferred = false }
    else if above_one c.nodes && is_positive probe_total
    then record {
      total = (probe_total * c.nodes) % 2 ^ 64;
      usable = (probe_usable * c.nodes) % 2 ^ 64;
      inferred = true;
    }
    else record {
      total = probe_total;
      usable = probe_usable;
      inferred = above_one c.all_nodes && is_positive probe_total;
    }

unfoldable pub resolve_gpus : Names → List Measurement → ClusterGpus → Resolved
unfolding resolve total_gpus usable_gpus
resolve_gpus names p c = resolve (total_gpus names p) (usable_gpus names p) c

usable_of-cases :
    (names : Names) (total : ℕ) (st : Option Subtype)
    → (usable_of names total st ≡ 0) ⊎ (usable_of names total st ≡ total)
unfolding usable_of
usable_of-cases names total none = inl refl
usable_of-cases names total (some st) = ground arith

pub usable_gpus-cases :
    (names : Names) (p : List Measurement)
    → (usable_gpus names p ≡ 0) ⊎ (usable_gpus names p ≡ total_gpus names p)
unfolding usable_gpus
usable_gpus-cases names p =
    ground (arith, usable_of-cases names (total_gpus names p) (reading names.type_gpu "hardware" p))
