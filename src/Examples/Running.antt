-- ===== src/Examples/Running.antt =====
-- A run of a pipeline with one node of each kind, and the theorems about runs at it.
use tz_oss_interop.Prelude.{
  ◌≡◌, ◌↔◌, refl, ◌⊎◌, Bool, true, false, none, some, List, [], ◌∷◌, ◌++◌, map,
}
use tz_oss_interop.Prelude.Text.{Text, codes}
use tz_oss_interop.Errors.{
  Error, Result, ok, err, EnergyModelValidationError, critical, validation_failed,
}
use tz_oss_interop.Spec.{PipelineSpec}
use tz_oss_interop.Pipeline.{State, report_unread_extensions}
use tz_oss_interop.Runner.{
  Call, staged, unstaged, validated, reported, stepped, wrote, World, Factories, build_params,
  reject_untranslatable_input, build_validator, guarded_validate, validate_each, run_validators,
  open_step, run_step, run_steps, open_sink, write_sink, write_sinks, write_out, translate_state,
  check_and_translate, open_source, with_source, run_pipeline,
}
use tz_oss_interop.Runner.Validation.{
  names, IsClean, CanBuild, run_validators_calls, run_validators_iff,
}
use tz_oss_interop.Runner.Runs.{IsLoaded, IsTraceFrom, run_pipeline_trace}
use tz_oss_interop.Examples.Manifests.{node}

abbrev finding : EnergyModelValidationError
finding = record {
  validator = codes "check";
  severity = critical;
  component = codes "Bus";
  name = codes "b";
  message = codes "no carrier";
  attribute = none;
  value = none;
}

abbrev loaded : State Bool
loaded = record {
  frames = false;
  source_extensions = [];
  destination_extensions = [];
  validation_errors = [];
  consumed_extensions = none;
}

abbrev translated : State Bool
translated = record loaded { frames = true }

-- Nodes that hold: the step turns the frames, and the validator finds what `found` lists.
abbrev nodes : List EnergyModelValidationError → Factories Bool Text
nodes found = record {
  source = λ name.
      ok (record { params_schema = none; load_into_state = λ m events. (ok loaded, events) });
  step = λ name names.
      ok (record { params_schema = none; run = λ state m events. (ok translated, events) });
  sink = λ name. ok (record { params_schema = none; write = λ state m events. (ok tt, events) });
  validator = λ name. ok (record {
    params_schema = none;
    validate = λ state m. (ok tt, record state { validation_errors = found });
  });
}

abbrev render : List EnergyModelValidationError → Result (Unit {0})
render findings = ok tt

abbrev spec : PipelineSpec
spec = record {
  source_framework = codes "a";
  destination_framework = codes "b";
  source = node (codes "read") [];
  steps = node (codes "turn") [] ∷ [];
  sinks = node (codes "write") [] ∷ [];
  validators = node (codes "check") [] ∷ [];
}

abbrev before : World
before = record { events = []; calls = [] }

abbrev whole_run : World
whole_run = record {
  events = [];
  calls =
      staged
      ∷ validated (codes "check")
      ∷ reported []
      ∷ stepped (codes "turn")
      ∷ wrote (codes "write")
      ∷ unstaged
      ∷ [];
}

abbrev passed : Result (List EnergyModelValidationError)
passed = ok []

abbrev refused_run : World
refused_run = record {
  events = [];
  calls = staged ∷ validated (codes "check") ∷ reported (finding ∷ []) ∷ unstaged ∷ [];
}

running : Unit {0}
unfolding build_params reject_untranslatable_input build_validator guarded_validate validate_each
    run_validators open_step run_step run_steps open_sink write_sink write_sinks write_out
    translate_state check_and_translate open_source with_source run_pipeline
    report_unread_extensions
running = tt

ran : run_pipeline (nodes []) spec false (some render) before ≡ (ok [], whole_run)
unfolding running
ran = refl

refused :
    run_pipeline (nodes (finding ∷ [])) spec false (some render) before
    ≡ (err (validation_failed (finding ∷ [])), refused_run)
unfolding running
refused = refl

run_pipeline_trace_example :
    ((e : Error) × (passed ≡ err e) × (whole_run.calls ≡ before.calls))
    ⊎ ((during : List Call) × (whole_run.calls ≡ before.calls ++ staged ∷ during ++ unstaged ∷ [])
        × (((e : Error) × (passed ≡ err e) × (during ≡ []))
            ⊎ ((start : State Bool) × IsLoaded (nodes []) spec before.events start
                × IsTraceFrom (nodes []) spec render start passed during)))
run_pipeline_trace_example = run_pipeline_trace (nodes []) spec render before passed whole_run ran

run_validators_iff_example :
    ((run_validators (nodes []) loaded spec (some render) before).0 ≡ ok loaded)
    ↔ (IsClean (nodes []) spec.validators loaded loaded × (render loaded.validation_errors ≡ ok tt))
run_validators_iff_example = run_validators_iff (nodes []) loaded loaded spec render before

run_validators_calls_example :
    (done : List Text) × (findings : List EnergyModelValidationError) × ((run_validators
        (nodes [])
        loaded
        spec
        (some render)
        before).1.calls
      ≡ before.calls ++ map validated done ++ reported findings ∷ [])
    × (CanBuild (nodes []) spec.validators → done ≡ names spec.validators)
run_validators_calls_example = run_validators_calls (nodes []) loaded spec render before
