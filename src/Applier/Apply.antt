-- ===== src/Applier/Apply.antt =====
-- internal/applier/applier.go: the run of deploy.sh and the events it leads to. The process, the JSON
-- encoder, `strconv.Itoa` and the reading of bytes as characters are parameters.
pub mod Told
use aicrme.Prelude.{
  ℕ, String, str_append, str_eq, Bool, Option, none, some, List, [], ◌∷◌, ◌++◌, map, if◌then◌else◌,
}
use aicrme.Bus.Event.{Event, error, err, zero_event}
use aicrme.Applier.Lines.{new_line_writer, write_all, flush}
use aicrme.Applier.Tail.{Ring, new_ring, add, lines}
use aicrme.Applier.Parse.{ComponentData, parse_line}

pub record FailureData : Type 0 where
  pub component : String
  pub exit_error : String
  pub tail : List String

pub record Options : Type 0 where
  pub bundle_dir : String
  pub retries : ℕ
  pub dry_run : Bool
  pub kubeconfig : String

pub record Spec : Type 0 where
  pub dir : String
  pub argv : List String
  pub env : List String

abbrev pub tail_lines : ℕ
tail_lines = 200

unfoldable pub env : Options → List String
env opts =
    let dry_run = if opts.dry_run then "--dry-run" else "" in
    let flag =
      if str_eq opts.kubeconfig "" then "" else str_append "--kubeconfig " opts.kubeconfig in
    "NO_COLOR=1"
    ∷ str_append "DRY_RUN_FLAG=" dry_run
    ∷ str_append "KUBECONFIG=" opts.kubeconfig
    ∷ str_append "KUBECONFIG_FLAG=" flag
    ∷ "HELM_DEBUG_FLAG="
    ∷ []

-- What the callback of the writer keeps, and the events emitted so far.
pub record Progress : Type 0 where
  pub tail : Ring
  pub last_component : String
  pub emitted : List Event

unfoldable pub note_event : Option Event → Progress → Progress
note_event none s = s
note_event (some e) s = record s {
  last_component = if str_eq e.component "" then s.last_component else e.component;
  emitted = s.emitted ++ e ∷ [];
}

module _ (marshal : ComponentData → String) where
  unfoldable pub on_line : String → Progress → Progress
  unfolding note_event
  on_line line s = note_event (parse_line marshal line) (record s { tail = add line s.tail })

  unfoldable pub on_lines : List String → Progress → Progress
  unfolding on_line
  on_lines [] s = s
  on_lines (line ∷ rest) s = on_lines rest (on_line line s)

module _ (marshal_failure : FailureData → String) where
  unfoldable pub failure_event : String → Progress → Event
  failure_event reason s = record zero_event {
    kind = error;
    level = err;
    component = s.last_component;
    message = str_append "deploy.sh failed: " reason;
    body = some (
        marshal_failure
          (record { component = s.last_component; exit_error = reason; tail = lines s.tail }));
  }

  unfoldable pub conclude : Option String → Progress → List Event × Option String
  unfolding failure_event
  conclude none s = (s.emitted, none)
  conclude (some reason) s = (s.emitted ++ failure_event reason s ∷ [], some reason)

unfoldable pub spec_of : (ℕ → String) → Options → Spec
unfolding env
spec_of itoa opts = record {
  dir = opts.bundle_dir;
  argv = "bash" ∷ "deploy.sh" ∷ "--retries" ∷ itoa opts.retries ∷ [];
  env = env opts;
}

module _ (itoa : ℕ → String) (decode : List ℕ → String) (marshal : ComponentData → String)
    (marshal_failure : FailureData → String) where
  -- What the process writes, write by write, and why it failed; the events and the error's cause.
  unfoldable pub apply :
      (Spec → List (List ℕ) × Option String) → Options → List Event × Option String
  unfolding spec_of on_lines conclude
  apply exec opts =
      let ran = exec (spec_of itoa opts) in
      let out = flush (write_all ran.0 new_line_writer) in
      let start : Progress = record {
        tail = new_ring tail_lines;
        last_component = "";
        emitted = [];
      } in
      conclude marshal_failure ran.1 (on_lines marshal (map decode out.lines) start)
