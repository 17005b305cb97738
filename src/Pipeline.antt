-- ===== src/Pipeline.antt =====
-- interop/core/pipeline.py: the state that the nodes of a pipeline pass on, and what a node is. The
-- nodes are plugins, so they are arguments of the runner; `B` stands for the frames of a state,
-- which polars holds, and `M` for a validated params model of pydantic.
pub mod Sidecar
use tz_oss_interop.Prelude.{Bool, Option, none, some, List, [], ◌∷◌, ◌++◌, contains}
use tz_oss_interop.Prelude.Text.{Text, text_eq}
use tz_oss_interop.Errors.{Result, ok, err, EnergyModelValidationError, ValidationSeverity}
use tz_oss_interop.Spec.{Value, Params}
use tz_oss_interop.Reporting.{TranslationEvent, EventRecorder}
use tz_oss_interop.Extensions.{StagedExtensions, ExtensionConsumption, report_unconsumed}

pub record State (B : Type 0) : Type 0 where
  pub frames : B
  pub source_extensions : StagedExtensions
  pub destination_extensions : StagedExtensions
  pub validation_errors : List EnergyModelValidationError
  pub consumed_extensions : Option ExtensionConsumption

-- `ExtensionConsumption(recorder)` where there is none yet.
abbrev pub consumption_or : EventRecorder → Option ExtensionConsumption → ExtensionConsumption
consumption_or recorder none = record { recorder = recorder; by_kind = [] }
consumption_or recorder (some consumption) = consumption

abbrev pub Events : Type 0
Events = List TranslationEvent

module _ {B : Type 0} where
  -- `State.extension_reader`: the consumption that the reader records in, and the state after.
  unfoldable pub extension_reader : EventRecorder → State B → ExtensionConsumption × State B
  extension_reader recorder state =
      let consumption = consumption_or recorder state.consumed_extensions in
      (consumption, record state { consumed_extensions = some consumption })

  -- `State.report_unread_extensions`, on the events of the run.
  unfoldable pub report_unread_extensions : State B → Text → Events → Events
  report_unread_extensions state framework events = elim state.consumed_extensions [
    | none ↦ events
    | some consumption ↦ report_unconsumed consumption state.source_extensions framework events
  ]

  -- `Validator.emit_validation_error`, of a validator with the name `validator`.
  unfoldable pub emit_validation_error :
      (validator : Text)
      → State B
      → ValidationSeverity
      → (component name message : Text) → Option Text
      → Option Value
      → State B
  emit_validation_error validator state severity component name message attribute value =
      record state {
        validation_errors =
            state.validation_errors
            ++ record {
              validator = validator;
              severity = severity;
              component = component;
              name = name;
              message = message;
              attribute = attribute;
              value = value;
            }
              ∷ [];
      }

-- `PipelineSteps.contains`
unfoldable pub step_in : List Text → Text → Bool
step_in names step_name = contains names step_name

-- `params_schema`: `none` for a node with no configuration; a schema answers `none` where pydantic
-- raises its `ValidationError`.
abbrev pub Schema : Type 0 → Type 0
Schema M = Option (Params → Option M)

module _ (B M : Type 0) where
  -- A `StagedSource`: `load_into_state`, in a fresh staging directory.
  pub record Source : Type 0 where
    pub params_schema : Schema M
    pub load_into_state : Option M → Events → Result (State B) × Events

  pub record TranslationStep : Type 0 where
    pub params_schema : Schema M
    pub run : State B → Option M → Events → Result (State B) × Events

  -- A sink reads the state and writes files.
  pub record Sink : Type 0 where
    pub params_schema : Schema M
    pub write : State B → Option M → Events → Result (Unit {0}) × Events

  -- A validator adds its findings to the state that it is given, and may raise after some of them.
  pub record Validator : Type 0 where
    pub params_schema : Schema M
    pub validate : State B → Option M → Result (Unit {0}) × State B
