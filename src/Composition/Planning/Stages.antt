-- ===== src/Composition/Planning/Stages.antt =====
-- The stages that a successful `plan_translation` has gone through.
use tz_oss_interop.Prelude.{◌≡◌, List, keep_if}
use tz_oss_interop.Errors.{ok, >>=-eq-ok}
use tz_oss_interop.Composition.Legs.{
  PlannedLeg, is_translation, TranslationPlan, SpecLoader, CompositionRequest, legs_in_run_order,
  split_kinds,
}
use tz_oss_interop.Composition.Routing.{route_handoffs}
use tz_oss_interop.Composition.References.{resolve_references}
use tz_oss_interop.Composition.Rules.{
  validate_boundaries, validate_reference_targets, validate_wiring, apply_run_overrides,
}
use tz_oss_interop.Composition.Planning.{plan_translation}

-- The stages of a plan that was made.
pub record Stages (load_spec : SpecLoader) (request : CompositionRequest) (plan : TranslationPlan)
    : Type 0 where
  pub planned : List PlannedLeg
  pub routed : List PlannedLeg
  pub overridden : List PlannedLeg
  pub resolved : List PlannedLeg
  pub loaded : legs_in_run_order load_spec request ≡ ok planned
  pub routing : route_handoffs planned ≡ ok routed
  pub boundaries : validate_boundaries (keep_if is_translation routed) ≡ ok tt
  pub targets : validate_reference_targets routed ≡ ok tt
  pub wiring : validate_wiring (keep_if is_translation routed) ≡ ok tt
  pub overriding : apply_run_overrides routed request.overrides ≡ ok overridden
  pub resolving : resolve_references overridden ≡ ok resolved
  pub splitting : split_kinds resolved ≡ plan

module _ (load_spec : SpecLoader) (request : CompositionRequest) (plan : TranslationPlan)
    (made : plan_translation load_spec request ≡ ok plan) where
  pub stages : Stages load_spec request plan
  unfolding plan_translation
  stages =
      let (planned, loaded, h1) = >>=-eq-ok (legs_in_run_order load_spec request) _ made in
      let (routed, routing, h2) = >>=-eq-ok (route_handoffs planned) _ h1 in
      let (_, boundaries, h3) =
        >>=-eq-ok (validate_boundaries (keep_if is_translation routed)) _ h2 in
      let (_, targets, h4) = >>=-eq-ok (validate_reference_targets routed) _ h3 in
      let (_, wiring, h5) = >>=-eq-ok (validate_wiring (keep_if is_translation routed)) _ h4 in
      let (overridden, overriding, h6) =
        >>=-eq-ok (apply_run_overrides routed request.overrides) _ h5 in
      let (resolved, resolving, h7) = >>=-eq-ok (resolve_references overridden) _ h6 in
      record {
        planned = planned;
        routed = routed;
        overridden = overridden;
        resolved = resolved;
        loaded = loaded;
        routing = routing;
        boundaries = boundaries;
        targets = targets;
        wiring = wiring;
        overriding = overriding;
        resolving = resolving;
        splitting = cc h7;
      }
