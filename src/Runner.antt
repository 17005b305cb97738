-- ===== src/Runner.antt =====
-- interop/core/runner.py: `run_pipeline` and `run_validation`. What the runner does to its nodes is
-- recorded as a list of calls, so that a theorem can say which ran.
pub mod Validation
pub mod Calls
pub mod Translating
pub mod Runs
use tz_oss_interop.Prelude.{
  Bool, true, false, Option, none, some, List, [], ◌∷◌, ◌++◌, map, if◌then◌else◌, keep_if,
}
use tz_oss_interop.Prelude.Text.{Text}
use tz_oss_interop.Errors.{
  NodeKind, source, step, sink, validator, Result, ok, err, ◌>>=◌, unexpected_params,
  invalid_params, validation_failed, validators_crashed, EnergyModelValidationError, critical,
  warning,
}
use tz_oss_interop.Spec.{Params, NodeSpec, PipelineSpec}
use tz_oss_interop.Pipeline.{
  State, Events, Schema, Source, TranslationStep, Sink, Validator, report_unread_extensions,
}

-- What the runner did, in order. `reported` is the call of `on_validators_complete`.
pub data Call : Type 0 where
  staged unstaged : Call
  validated : (name : Text) → Call
  reported : List EnergyModelValidationError → Call
  stepped : (name : Text) → Call
  wrote : (name : Text) → Call

-- The run's event log and the calls so far.
pub record World : Type 0 where
  pub events : Events
  pub calls : List Call

abbrev pub called : Call → World → World
called call w = record w { calls = w.calls ++ call ∷ [] }

abbrev pub logged : Events → World → World
logged events w = record w { events = events }

abbrev pub Action {ℓ} : Type ℓ → Type ℓ
Action A = World → Result A × World

abbrev pub continue_with {ℓ κ} : {A : Type ℓ} {B : Type κ} → Result A → (A → Action B) → Action B
continue_with (ok a) f w = f a w
continue_with (err e) f w = (err e, w)

abbrev pub OnValidatorsComplete : Type 0
OnValidatorsComplete = Option (List EnergyModelValidationError → Result (Unit {0}))

module _ {M : Type 0} where
  unfoldable pub build_params : NodeKind → Schema M → NodeSpec → Result (Option M)
  build_params kind none spec = elim spec.params [
    | [] ↦ ok none
    | entry ∷ rest ↦ err (unexpected_params spec.name)
  ]
  build_params kind (some schema) spec = elim (schema spec.params) [
    | none ↦ err (invalid_params kind spec.name)
    | some params ↦ ok (some params)
  ]

pub record Factories (B M : Type 0) : Type 0 where
  pub source : Text → Result (Source B M)
  pub step : Text → List Text → Result (TranslationStep B M)
  pub sink : Text → Result (Sink B M)
  pub validator : Text → Result (Validator B M)

abbrev pub is_critical : EnergyModelValidationError → Bool
is_critical error = elim error.severity [ critical ↦ true | warning ↦ false ]

unfoldable pub reject_untranslatable_input : {B : Type 0} → State B → Result (Unit {0})
reject_untranslatable_input state = elim (keep_if is_critical state.validation_errors) [
  | [] ↦ ok tt
  | error ∷ rest ↦ err (validation_failed (error ∷ rest))
]

-- Where the loop over the validators has got to.
pub record Validating (B : Type 0) : Type 0 where
  pub state : State B
  pub crashes : List Text
  pub calls : List Call

abbrev pub add_crash : Result (Unit {0}) → Text → List Text → List Text
add_crash (ok _) name crashes = crashes
add_crash (err _) name crashes = crashes ++ name ∷ []

module _ {B : Type 0} where
  -- The `finally` clause: an exception of the callback replaces the one that was under way.
  abbrev pub hand_over :
      OnValidatorsComplete → Result (Unit {0}) → Validating B → Result (Unit {0}) × List Call
  hand_over none outcome v = (outcome, v.calls)
  hand_over (some render) outcome v = (
    elim (render v.state.validation_errors) [ err e ↦ err e | ok _ ↦ outcome ],
    v.calls ++ reported v.state.validation_errors ∷ [],
  )

  abbrev pub raise_crashes : List Text → State B → Result (State B)
  raise_crashes [] state = ok state
  raise_crashes (crash ∷ rest) state = err (validators_crashed (crash ∷ rest))

module _ {B M : Type 0} where
  module _ (factories : Factories B M) where
    -- The part of the loop's body outside the guard.
    unfoldable pub build_validator : NodeSpec → Result (Validator B M × Option M)
    build_validator node = do
      built ← factories.validator node.name
      params ← build_params validator built.params_schema node
      ok (built, params)

    -- The part inside the guard: a crash is collected.
    unfoldable pub guarded_validate :
        NodeSpec → Validator B M × Option M → Validating B → Validating B
    guarded_validate node (built, params) v =
        let (outcome, state) = built.validate v.state params in
        record {
          state = state;
          crashes = add_crash outcome node.name v.crashes;
          calls = v.calls ++ validated node.name ∷ [];
        }

    -- The loop, with how it ended.
    unfoldable pub validate_each : List NodeSpec → Validating B → Result (Unit {0}) × Validating B
    validate_each [] v = (ok tt, v)
    validate_each (node ∷ nodes) v = elim (build_validator node) [
      | err e ↦ (err e, v)
      | ok built ↦ validate_each nodes (guarded_validate node built v)
    ]

    unfoldable pub run_validators : State B → PipelineSpec → OnValidatorsComplete → Action (State B)
    run_validators state spec complete w =
        let start : Validating B = record { state = state; crashes = []; calls = w.calls } in
        let (outcome, v) = validate_each spec.validators start in
        let (outcome', calls) = hand_over complete outcome v in
        (outcome' >>= λ _. raise_crashes v.crashes v.state, record w { calls = calls })

    -- A step that is made and has its params, up to its call.
    unfoldable pub open_step :
        List Text → NodeSpec → State B → Result (Events → Result (State B) × Events)
    open_step names node state = do
      built ← factories.step node.name names
      params ← build_params step built.params_schema node
      ok (built.run state params)

    unfoldable pub run_step : List Text → NodeSpec → State B → Action (State B)
    run_step names node state w = elim (open_step names node state) [
      | err e ↦ (err e, w)
      | ok run ↦
          let (result, events) = run w.events in
          (result, logged events (called (stepped node.name) w))
    ]

    unfoldable pub run_steps : List Text → List NodeSpec → State B → Action (State B)
    run_steps names [] state w = (ok state, w)
    run_steps names (node ∷ nodes) state w =
        let (result, w') = run_step names node state w in
        continue_with result (λ state'. run_steps names nodes state') w'

    unfoldable pub open_sink : NodeSpec → State B → Result (Events → Result (Unit {0}) × Events)
    open_sink node state = do
      built ← factories.sink node.name
      params ← build_params sink built.params_schema node
      ok (built.write state params)

    unfoldable pub write_sink : NodeSpec → State B → Action (Unit {0})
    write_sink node state w = elim (open_sink node state) [
      | err e ↦ (err e, w)
      | ok write ↦
          let (result, events) = write w.events in
          (result, logged events (called (wrote node.name) w))
    ]

    unfoldable pub write_sinks : List NodeSpec → State B → Action (Unit {0})
    write_sinks [] state w = (ok tt, w)
    write_sinks (node ∷ nodes) state w =
        let (result, w') = write_sink node state w in
        continue_with result (λ _. write_sinks nodes state) w'

    -- `run_pipeline` after the last step.
    unfoldable pub write_out : PipelineSpec → State B → Action (List EnergyModelValidationError)
    write_out spec state w =
        let at_end = logged (report_unread_extensions state spec.source_framework w.events) w in
        let (written, w') = write_sinks spec.sinks state at_end in
        continue_with written (λ _ w''. (ok state.validation_errors, w'')) w'

    -- The body of the `with` of `run_pipeline` after the validators.
    unfoldable pub translate_state :
        PipelineSpec → State B → Action (List EnergyModelValidationError)
    translate_state spec checked w =
        continue_with (reject_untranslatable_input checked)
          (λ _ w'.
            let (result, w'') = run_steps (map (λ n. n.name) spec.steps) spec.steps checked w' in
            continue_with result (write_out spec) w'')
          w

    -- The body of the `with` of `run_pipeline`.
    unfoldable pub check_and_translate :
        PipelineSpec → OnValidatorsComplete → State B → Action (List EnergyModelValidationError)
    check_and_translate spec complete state w =
        let (result, w') = run_validators state spec complete w in
        continue_with result (translate_state spec) w'

    unfoldable pub open_source : NodeSpec → Result (Events → Result (State B) × Events)
    open_source node = do
      built ← factories.source node.name
      params ← build_params source built.params_schema node
      ok (built.load_into_state params)

    -- `with source.load(...) as state: body(state)`: the staging directory is removed however the
    -- body ends, unless it is kept.
    unfoldable pub with_source {ℓ} :
        {A : Type ℓ} → PipelineSpec → Bool → (State B → Action A) → Action A
    with_source spec keep_staging body w = elim (open_source spec.source) [
      | err e ↦ (err e, w)
      | ok load ↦
          let (loaded, events) = load w.events in
          let (result, w') = continue_with loaded body (logged events (called staged w)) in
          (result, if keep_staging then w' else called unstaged w')
    ]

    unfoldable pub run_pipeline :
        PipelineSpec → Bool → OnValidatorsComplete → Action (List EnergyModelValidationError)
    run_pipeline spec keep_staging complete =
        with_source spec keep_staging (check_and_translate spec complete)

    unfoldable pub run_validation :
        PipelineSpec → Bool → OnValidatorsComplete → Action (List EnergyModelValidationError)
    run_validation spec keep_staging complete = with_source spec keep_staging λ state w.
        let (result, w') = run_validators state spec complete w in
        continue_with result (λ checked w''. (ok checked.validation_errors, w'')) w'
