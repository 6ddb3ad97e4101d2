-- ===== src/Gap/Rules.antt =====
-- internal/gap/rules.go: the rules that name what is missing.
use aicrme.Prelude.{
  String, str_eq, Bool, true, false, not, ◌&&◌, List, [], ◌∷◌, Option, none, some, ltb, ◌==◌,
  if◌then◌else◌,
}
use aicrme.Gap.Probe.{Subtype, Measurement, reading, Names}

pub record Rule : Type 0 where
  pub id : String
  pub title : String
  pub detail : String
  pub component : String
  pub applies : List Measurement → Bool

unfoldable pub not_loaded : Names → Option Subtype → Bool
not_loaded names none = false
not_loaded names (some st) =
    if not (st.has names.gpu_driver_loaded)
    then false
    else not (str_eq (st.text names.gpu_driver_loaded) "true")

-- `Applies` of the rule on the driver.
unfoldable pub driver_absent : Names → List Measurement → Bool
unfolding reading not_loaded
driver_absent names p = not_loaded names (reading names.type_gpu "hardware" p)

unfoldable pub collected_empty : Option Subtype → Option Subtype → Bool
collected_empty none policy = false
collected_empty (some image) none = false
collected_empty (some image) (some policy) = ltb 0 image.size && policy.size == 0

unfoldable pub gpu_operator_absent : Names → List Measurement → Bool
unfolding reading collected_empty
gpu_operator_absent names p =
    collected_empty (reading names.type_k8s "image" p) (reading names.type_k8s "policy" p)

abbrev pub kai_scheduler_image_names : List String
kai_scheduler_image_names = "podgrouper" ∷ "podgroupcontroller" ∷ "queuecontroller" ∷ []

unfoldable pub has_none : List String → Subtype → Bool
has_none [] st = true
has_none (name ∷ names) st = if st.has name then false else has_none names st

unfoldable pub no_scheduler_in : Option Subtype → Bool
unfolding has_none
no_scheduler_in none = false
no_scheduler_in (some st) = if st.size == 0 then false else has_none kai_scheduler_image_names st

unfoldable pub gpu_scheduler_absent : Names → List Measurement → Bool
unfolding reading no_scheduler_in
gpu_scheduler_absent names p = no_scheduler_in (reading names.type_k8s "image" p)

unfoldable pub kwok_controller_present : Names → List Measurement → Bool
unfolding reading
kwok_controller_present names p = elim (reading names.type_k8s "image" p) [
  | none ↦ false
  | some st ↦ st.has "kwok"
]

unfoldable pub rules : Names → List Rule
unfolding driver_absent gpu_operator_absent gpu_scheduler_absent
rules names =
    record {
      id = "gpu-driver";
      title = "No GPU driver installed, the kernel does not see the devices";
      detail =
          "GPU.hardware reports driver-loaded=false: the NVIDIA driver is not loaded, so nvidia-smi and the device nodes are unavailable.";
      component = "gpu-operator";
      applies = driver_absent names;
    }
    ∷ record {
      id = "device-plugin";
      title = "No device plugin, Kubernetes cannot schedule nvidia.com/gpu";
      detail =
          "K8s.policy (the GPU Operator's ClusterPolicy) was collected and is empty: no ClusterPolicy exists, so the device plugin DaemonSet it manages is not running. K8s.image is non-empty, so this is a real read, not a degraded collector.";
      component = "gpu-operator";
      applies = gpu_operator_absent names;
    }
    ∷ record {
      id = "gpu-metrics";
      title = "No GPU metrics, utilization is invisible";
      detail =
          "Same evidence as device-plugin: K8s.policy is collected-empty (no ClusterPolicy) with a non-empty K8s.image corroborating a healthy collector, so the DCGM exporter — also GPU-Operator-managed via ClusterPolicy's dcgm.enabled/dcgmExporter.enabled — is not running either.";
      component = "gpu-operator";
      applies = gpu_operator_absent names;
    }
    ∷ record {
      id = "gpu-scheduler";
      title = "No GPU-aware scheduler, no gang scheduling for multi-node jobs";
      detail =
          "K8s.image lists every unique container image running in the cluster and none of them are kai-scheduler's (podgrouper, podgroupcontroller, queuecontroller). kube-scheduler is present but does not gang-schedule.";
      component = "kai-scheduler";
      applies = gpu_scheduler_absent names;
    }
    ∷ []
