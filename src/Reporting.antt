-- ===== src/Reporting.antt =====
-- interop/ports/outbound/reporting.py and the recorders of interop/core/reporting.py.
pub mod Scopes
use tz_oss_interop.Prelude.{Option, none, some, List, [], ◌∷◌, ◌++◌}
use tz_oss_interop.Prelude.Text.{Text}
use tz_oss_interop.Prelude.Dict.{or_else}
use tz_oss_interop.Spec.{Value}

pub data EventKind : Type 0 where
  value_derived translator_default_applied user_config_default_applied : EventKind
  component_skipped not_mapped : EventKind

pub record SourceField : Type 0 where
  pub framework : Text
  pub component : Text
  pub name : Text
  pub attribute : Option Text
  pub value : Option Value
  pub unit : Option Text
  pub stated_unit : Option Text

pub record DestinationField : Type 0 where
  pub framework : Text
  pub component : Text
  pub name : Text
  pub attribute : Option Text
  pub value : Option Value
  pub unit : Option Text

pub record TranslationEvent : Type 0 where
  pub kind : EventKind
  pub sources : List SourceField
  pub destinations : List DestinationField
  pub derivation : Option Text
  pub note : Option Text
  pub step : Option Text
  pub pipeline : Option Text

-- `EventLog`, or `ScopedRecorder` around another recorder, or `DiscardingRecorder`. The log itself
-- is the run's: a recorder says what an append does to it.
pub data EventRecorder : Type 0 where
  event_log discarding_recorder : EventRecorder
  scoped_recorder : (inner : EventRecorder) (step pipeline : Option Text) → EventRecorder

-- `a or b`, where an empty text counts as absent.
abbrev pub or_text : Option Text → Option Text → Option Text
or_text none b = b
or_text (some []) b = b
or_text (some (c ∷ s)) b = some (c ∷ s)

abbrev pub tag : Option Text → Option Text → TranslationEvent → TranslationEvent
tag step pipeline event = record event {
  step = or_text event.step step;
  pipeline = or_text event.pipeline pipeline;
}

-- `recorder.append(event)`: the events of the run's log afterwards.
unfoldable pub append_event :
    EventRecorder → TranslationEvent → List TranslationEvent → List TranslationEvent
append_event event_log event events = events ++ event ∷ []
append_event discarding_recorder event events = events
append_event (scoped_recorder inner step pipeline) event events =
    append_event inner (tag step pipeline event) events
