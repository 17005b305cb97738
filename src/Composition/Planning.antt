-- ===== src/Composition/Planning.antt =====
-- `plan_translation` of interop/core/composition/planning.py.
pub mod Stages
pub mod Guarantees
use tz_oss_interop.Prelude.{keep_if}
use tz_oss_interop.Errors.{Result, ok, ◌>>=◌, ◌>>◌}
use tz_oss_interop.Composition.Legs.{
  SpecLoader, CompositionRequest, TranslationPlan, is_translation, legs_in_run_order, split_kinds,
}
use tz_oss_interop.Composition.Routing.{route_handoffs}
use tz_oss_interop.Composition.References.{resolve_references}
use tz_oss_interop.Composition.Rules.{
  validate_boundaries, validate_reference_targets, validate_wiring, apply_run_overrides,
}

unfoldable pub plan_translation : SpecLoader → CompositionRequest → Result TranslationPlan
plan_translation load_spec request = do
  planned ← legs_in_run_order load_spec request
  routed ← route_handoffs planned
  let translations = keep_if is_translation routed
  validate_boundaries translations
  validate_reference_targets routed
  validate_wiring translations
  overridden ← apply_run_overrides routed request.overrides
  resolved ← resolve_references overridden
  ok (split_kinds resolved)
