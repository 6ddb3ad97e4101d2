-- ===== src/Gap/Evidence.antt =====
-- internal/gap: what the report may claim on what evidence.
use aicrme.Prelude.{
  ℕ, ◌≡◌, refl, ◌⊎◌, inl, inr, String, Bool, true, false, ◌&&◌, List, [], Option, none, some, arith,
  ◌==◌, Bool-cases,
}
use aicrme.Gap.Probe.{Subtype, Measurement, reading, is_positive, Names}
use aicrme.Gap.Counts.{
  ClusterGpus, resolve, resolve_gpus, total_gpus, usable_gpus, usable_of, usable_gpus-cases,
  above_one,
}
use aicrme.Gap.Rules.{
  rules, driver_absent, not_loaded, gpu_operator_absent, gpu_scheduler_absent, collected_empty,
  no_scheduler_in,
}
use aicrme.Gap.Report.{analyze, gaps_of}

resolve-cases :
    (total usable : ℕ) (c : ClusterGpus)
    → (usable ≡ 0) ⊎ (usable ≡ total)
    → is_positive c.total ≡ false
    → ((resolve total usable c).usable ≡ 0)
      ⊎ ((resolve total usable c).usable ≡ (resolve total usable c).total)
unfolding resolve
resolve-cases total usable c (inl z) h =
    elim (Bool-cases (above_one c.nodes && is_positive total)) [
      | inl q ↦ inl (rw (h, q, z) (omega arith))
      | inr q ↦ inl (rw (h, q) z)
    ]
resolve-cases total usable c (inr e) h =
    elim (Bool-cases (above_one c.nodes && is_positive total)) [
      | inl q ↦ inr (rw (h, q, e) refl)
      | inr q ↦ inr (rw (h, q) e)
    ]

-- The two counts always come from one source: what the nodes advertise is reported as it is and not as
-- inferred, and without that either nothing counts as usable or all of the total does, also where the
-- product of the inferred counts wraps around.
pub resolve_gpus_agree :
    (names : Names) (p : List Measurement) (c : ClusterGpus)
    → let counts = resolve_gpus names p c in
      (is_positive c.total ≡ true
        → (counts.total ≡ c.total) × (counts.usable ≡ c.usable) × (counts.inferred ≡ false))
      × (is_positive c.total ≡ false → (counts.usable ≡ 0) ⊎ (counts.usable ≡ counts.total))
unfolding resolve_gpus resolve
resolve_gpus_agree names p c = (
  λ h. rw h ((refl, refl, refl)),
  resolve-cases (total_gpus names p) (usable_gpus names p) c (usable_gpus-cases names p),
)

usable_of_absent :
    (names : Names) (total : ℕ) (st : Option Subtype)
    → not_loaded names st ≡ true
    → usable_of names total st ≡ 0
unfolding usable_of not_loaded
usable_of_absent names total none h = refl
usable_of_absent names total (some st) h = ground arith

usable_gpus_absent :
    (names : Names) (p : List Measurement) → driver_absent names p ≡ true → usable_gpus names p ≡ 0
unfolding usable_gpus driver_absent
usable_gpus_absent names p h =
    ground
      (arith, usable_of_absent names (total_gpus names p) (reading names.type_gpu "hardware" p), h)

resolve-none :
    (total : ℕ) (c : ClusterGpus) → is_positive c.total ≡ false → (resolve total 0 c).usable ≡ 0
unfolding resolve
resolve-none total c h = elim (Bool-cases (above_one c.nodes && is_positive total)) [
  | inl q ↦ rw (h, q) (omega arith)
  | inr q ↦ rw (h, q) refl
]

-- A report that names the missing driver as a gap claims no usable GPU, unless the nodes advertise GPUs.
pub driver_gap_unusable :
    (decimal : ℕ → String) (names : Names) (p : List Measurement) (c : ClusterGpus)
    → driver_absent names p ≡ true
    → is_positive c.total ≡ false
    → (analyze decimal names (some p) c).usable_gpus ≡ 0
unfolding analyze resolve_gpus
driver_gap_unusable decimal names p c h n =
    rw (usable_gpus_absent names p h) (resolve-none (total_gpus names p) c n)

-- Was nothing read of the images, or an empty list?
abbrev pub no_images : Option Subtype → Bool
no_images none = true
no_images (some st) = st.size == 0

uncollected :
    (image policy : Option Subtype) → no_images image ≡ true → collected_empty image policy ≡ false
unfolding collected_empty
uncollected none policy h = refl
uncollected (some image) none h = refl
uncollected (some image) (some policy) h = ground arith

unlisted : (image : Option Subtype) → no_images image ≡ true → no_scheduler_in image ≡ false
unfolding no_scheduler_in
unlisted none h = refl
unlisted (some image) h = rw h refl

-- Where the snapshot has no hardware of GPUs and no images, as when its collectors failed, the report
-- names no gap.
pub uncollected_no_gaps :
    (decimal : ℕ → String) (names : Names) (p : List Measurement) (c : ClusterGpus)
    → reading names.type_gpu "hardware" p ≡ none
    → no_images (reading names.type_k8s "image" p) ≡ true
    → (analyze decimal names (some p) c).gaps ≡ []
unfolding analyze gaps_of rules driver_absent gpu_operator_absent gpu_scheduler_absent not_loaded
uncollected_no_gaps decimal names p c h n =
    rw
      (
        h,
        uncollected (reading names.type_k8s "image" p) (reading names.type_k8s "policy" p) n,
        unlisted (reading names.type_k8s "image" p) n,
      )
      refl
