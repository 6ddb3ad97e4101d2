-- ===== src/Examples/Samples.antt =====
-- Runs and engines of the examples.
use aicrme.Prelude.{String, true, false, List, [], ◌∷◌, Option, none, some}
use aicrme.Engine.Run.{Run, State, Phase, bundle, apply, discover, zero_run}
use aicrme.Engine.State.{Engine, Step}
use aicrme.Engine.Codec.{Codec}

abbrev pub the_id : String
the_id = "00112233445566ff"

abbrev pub plain_step : Phase → Step
plain_step phase = record { phase = phase; requires = []; leaves_running = false }

abbrev pub asking_step : Step
asking_step = record {
  phase = bundle;
  requires = "accelerator" ∷ "os" ∷ [];
  leaves_running = false;
}

abbrev pub steps : List Step
steps = plain_step discover ∷ asking_step ∷ plain_step apply ∷ []

abbrev pub run_in : State → Run
run_in state = record zero_run {
  id = the_id;
  state = state;
  phase = apply;
  step_index = 2;
  started_at = 100;
  updated_at = 200;
  decisions = ("os", "ubuntu") ∷ [];
  components =
      record { name = "gpu-operator"; index = 1; total = 1; namespace = "gpu"; status = "deployed" }
      ∷ [];
}

abbrev pub engine_with : Option Run → Engine
engine_with current = record {
  steps = steps;
  prove_client = some true;
  teardown = true;
  cluster_uid = "";
  toolchain = [];
  current = current;
  resume = 1;
  signals = [];
  attribution = record {
    run_id = "";
    phase = Phase.unset;
    active_action = "";
    active_index = 0;
    active_total = 0;
    generation = 0;
    terminal = false;
  };
  epoch = 1;
  draining = false;
  store_unreadable = false;
  recovered_pending = false;
  cancel = some 1;
  canceled = [];
  closed = [];
}

abbrev pub codec : Codec
codec = record {
  decimal = λ n. "n";
  residue_json = λ d. d.name;
  summary_json = λ d. d.summary;
  recovery_json = λ d. "";
  component_json = λ c. c.name;
  validation_json = λ v. v.report_path;
  read_marker = λ body. none;
}
