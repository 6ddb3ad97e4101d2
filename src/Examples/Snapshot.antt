-- ===== src/Examples/Snapshot.antt =====
-- internal/gap at concrete inputs.
use aicrme.Prelude.{◌≡◌, ◌⊎◌, str_eq, true, false, List, [], ◌∷◌, none, some, if◌then◌else◌}
use aicrme.Gap.Probe.{Subtype, Measurement, is_positive, Names}
use aicrme.Gap.Counts.{ClusterGpus, resolve_gpus}
use aicrme.Gap.Evidence.{resolve_gpus_agree}

abbrev names : Names
names = record {
  type_gpu = "GPU";
  type_k8s = "K8s";
  type_os = "OS";
  type_node_topology = "NodeTopology";
  gpu_driver_loaded = "driver-loaded";
  gpu_present = "gpu-present";
  gpu_count = "gpu-count";
  version = "version";
}

-- Eight GPUs without their driver.
abbrev hardware : Subtype
hardware = record {
  size = 3;
  has = λ k. true;
  text = λ k. if str_eq k "driver-loaded" then "false" else "true";
  string_of = λ k. none;
  int_of = λ k. if str_eq k "gpu-count" then some 8 else none;
}

abbrev snapshot : List Measurement
snapshot =
    record { type = "GPU"; subtype = λ s. if str_eq s "hardware" then some hardware else none } ∷ []

abbrev two_nodes : ClusterGpus
two_nodes = record { nodes = 2; total = 0; usable = 0; all_nodes = 3 }

resolve_gpus_agree_example :
    let counts = resolve_gpus names snapshot two_nodes in
    (is_positive two_nodes.total ≡ true
      → (counts.total ≡ two_nodes.total)
        × (counts.usable ≡ two_nodes.usable)
        × (counts.inferred ≡ false))
    × (is_positive two_nodes.total ≡ false → (counts.usable ≡ 0) ⊎ (counts.usable ≡ counts.total))
resolve_gpus_agree_example = resolve_gpus_agree names snapshot two_nodes
