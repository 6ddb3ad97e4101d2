-- ===== src/Engine/Recover.antt =====
-- internal/engine/recover.go: `Recover`, which installs the run that an earlier process saved.
pub mod Bundle
pub mod Restart
use Prim.Native.Char.{Char, code}
use Prim.Native.String.{len}
use aicrme.Prelude.{
  ℕ, zero, suc, ◌+◌, String, str_append, str_eq, Bool, true, false, not, ◌&&◌, ◌||◌, List, [], ◌∷◌,
  ◌++◌, Option, none, some, leb, ltb, ◌==◌, if◌then◌else◌, length, map,
}
use aicrme.Bus.Event.{Event, Kind, Level}
use aicrme.Engine.Run.{
  Run, State, failed, idle, resetting, Phase, unset, ComponentState, is_live, is_idle, is_resetting,
  is_failed, is_bundle, state_text,
}
use aicrme.Engine.Codec.{Codec}
use aicrme.Engine.Report.{with_body}
use aicrme.Engine.State.{Engine, Step, event, level_for}

pub data RecoverError : Type 0 where
  step_config cluster_mismatch : RecoverError

-- The loop of `bundleStepIndex`: the first index found and how many there are.
unfoldable pub bundle_loop : List Step → ℕ → Option ℕ → ℕ → Option ℕ × ℕ
bundle_loop [] i found count = (found, count)
bundle_loop (s ∷ steps) i found count =
    bundle_loop steps (i + 1)
      (if is_bundle s.phase then (elim found [ none ↦ some i | some j ↦ some j ]) else found)
      (if is_bundle s.phase then count + 1 else count)

-- The index of the one step whose phase is bundle; `none` is the configuration error.
unfoldable pub bundle_step_index : List Step → Option ℕ
unfolding bundle_loop
bundle_step_index steps =
    let (found, count) = bundle_loop steps 0 none 0 in if count == 1 then found else none

-- `hex.DecodeString` takes the digits of both cases.
is_hex : Char → Bool
is_hex c =
    (leb b'0' (code c) && leb (code c) b'9')
    || (leb b'a' (code c) && leb (code c) b'f')
    || (leb b'A' (code c) && leb (code c) b'F')

all_hex : String → Bool
unfolding is_hex
all_hex String.[] = true
all_hex (String.◌∷◌ c s) = is_hex c && all_hex s

unfoldable pub valid_run_id : String → Bool
unfolding all_hex
valid_run_id id = len id == 16 && all_hex id

unfoldable pub valid_state : State → Bool
valid_state (State.unknown s) = false
valid_state _ = true

unfoldable pub valid_phase : Phase → Bool
valid_phase (Phase.other s) = false
valid_phase unset = false
valid_phase _ = true

-- The records of the model hold no negative index, so the lower bound of the range test is met.
unfoldable pub validate_loaded : List Step → Run → Bool
unfolding valid_run_id valid_state valid_phase
validate_loaded steps r =
    valid_run_id r.id
    && valid_state r.state
    && valid_phase r.phase
    && leb r.step_index (length steps)
    && not (r.started_at == 0)
    && not (r.updated_at == 0)

-- What `LoadCurrent` returns: a run, or an error with the code that decides what is done about it.
pub data ErrorCode : Type 0 where
  not_found internal other_code : ErrorCode

pub data Loaded : Type 0 where
  loaded : Run → Loaded
  load_failed : ErrorCode → Loaded

abbrev pub retryable : Loaded → Bool
retryable (load_failed internal) = true
retryable _ = false

abbrev pub max_load_attempts : ℕ
max_load_attempts = 3

-- `load n` is the answer to the attempt `n`, `done n` whether the context ends in the wait after it.
load_attempts : (ℕ → Loaded) → (ℕ → Bool) → ℕ → ℕ → Loaded → Loaded
load_attempts load done n zero last = last
load_attempts load done n (suc left) last =
    let r = load n in
    let rest = load_attempts load done (n + 1) left r in
    if not (retryable r)
    then r
    else if left == 0
    then r
    else if done n
    then load_failed other_code
    else rest

unfoldable pub load_current_with_retry : (ℕ → Loaded) → (ℕ → Bool) → Loaded
unfolding load_attempts
load_current_with_retry load done =
    load_attempts load done 0 max_load_attempts (load_failed other_code)

abbrev pub recovered_err : String
recovered_err = "interrupted by a console restart"

interrupted : Run → Run
interrupted r =
    let r1 =
      if is_resetting r.state
      then record r { pending = []; residue = record r.residue { incomplete = true } }
      else record r { pending = [] } in
    if is_live r.state || is_idle r.state
    then record r1 { state = failed; err = recovered_err }
    else r1

-- The run as `Recover` installs it, where `bundle` is the index of the bundle step.
unfoldable pub recovered_run : ℕ → Run → Run
unfolding interrupted
recovered_run bundle r =
    let r' = interrupted r in
    if is_failed r'.state && ltb bundle r'.step_index then record r' { step_index = bundle } else r'

abbrev pub mark_store_unreadable : Engine → Engine
mark_store_unreadable e = record e { store_unreadable = true }

-- `checkClusterMatch`
abbrev pub cluster_matches : Engine → Run → Bool
cluster_matches e r =
    str_eq e.cluster_uid "" || str_eq r.cluster_uid "" || str_eq r.cluster_uid e.cluster_uid

unfoldable pub install : ℕ → Engine → Run → Engine × Option RecoverError
unfolding recovered_run
install bundle e r =
    if not (cluster_matches e r)
    then (e, some cluster_mismatch)
    else (record e { current = some (recovered_run bundle r); recovered_pending = true }, none)

unfoldable pub recover_loaded : ℕ → Engine → Loaded → Engine × Option RecoverError
unfolding install validate_loaded
recover_loaded bundle e (load_failed not_found) = (e, none)
recover_loaded bundle e (load_failed internal) = (mark_store_unreadable e, none)
recover_loaded bundle e (load_failed other_code) = (mark_store_unreadable e, none)
recover_loaded bundle e (loaded r) =
    if validate_loaded e.steps r then install bundle e r else (mark_store_unreadable e, none)

unfoldable pub recover : (ℕ → Loaded) → (ℕ → Bool) → Engine → Engine × Option RecoverError
unfolding bundle_step_index load_current_with_retry recover_loaded
recover load done e = elim (bundle_step_index e.steps) [
  | none ↦ (e, some step_config)
  | some bundle ↦ recover_loaded bundle e (load_current_with_retry load done)
]

-- `componentLevel`
unfoldable pub component_level : String → Level
component_level status =
    if str_eq status "failed"
    then Level.err
    else if str_eq status "retrying"
    then Level.warn
    else Level.info

abbrev pub is_nonempty {ℓ} : {A : Type ℓ} → List A → Bool
is_nonempty [] = false
is_nonempty (x ∷ xs) = true

-- What `publishRecoveryBootstrap` puts on the hub.
module _ (codec : Codec) (r : Run) where
  marker_event : Event
  marker_event =
      let ev =
        event Kind.recovered Level.warn r.id r.phase
          "recovered a previous run; retry or discard it before starting a new one" in
      if is_nonempty r.truncated || r.residue.incomplete
      then with_body
          (codec.recovery_json
            (record { truncated = r.truncated; residue_incomplete = r.residue.incomplete }))
          ev
      else ev

  component_event : ComponentState → Event
  unfolding component_level
  component_event c =
      with_body (codec.component_json c)
        (record (event Kind.component (component_level c.status) r.id r.phase
          (str_append c.name (str_append " " c.status))) { component = c.name })

  validation_events : List Event
  validation_events =
      if not (str_eq r.validation.skipped "") || is_nonempty r.validation.phases
      then with_body (codec.validation_json r.validation) (
          event Kind.log Level.info r.id Phase.validate
            "recovered a previous run's validation verdict")
        ∷ []
      else []

  error_events : List Event
  error_events = if str_eq r.err "" then [] else event Kind.error Level.err r.id r.phase r.err ∷ []

  unfoldable pub recovery_bootstrap : List Event
  unfolding marker_event component_event validation_events error_events
  recovery_bootstrap =
      marker_event
      ∷ (map component_event r.components
          ++ (validation_events
              ++ (error_events
                  ++ event Kind.phase (level_for r.state) r.id r.phase
                      (str_append "run " (state_text r.state))
                    ∷ [])))
