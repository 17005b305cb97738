-- ===== src/Examples/Composing.antt =====
-- The chain planned, and the theorems about plans at it.
use tz_oss_interop.Prelude.{keep_if, ◌≡◌, ◌≢◌, ◌<◌, refl, none, List, [], ◌∷◌, arith, All, length}
use tz_oss_interop.Prelude.Text.{codes, text_eq, text_beq, split, decimal}
use tz_oss_interop.Prelude.Dict.{lookup, insert, update}
use tz_oss_interop.Errors.{ok}
use tz_oss_interop.Prelude.Int.{pos}
use tz_oss_interop.CliOverrides.{merge, validate_indices, apply_overrides}
use tz_oss_interop.Composition.Addressing.{
  parse_reference, parse_param_address, find_node, read_param, rewrite, set_param, apply_leg_params,
}
use tz_oss_interop.Composition.Routing.Distinct.{IsDistinct, writes_of}
use tz_oss_interop.Composition.Rules.Soundness.{IsAdjacent, IsWiredTo}
use tz_oss_interop.Composition.References.Resolution.{HasNoReferences}
use tz_oss_interop.Composition.Legs.{
  CompositionRequest, PlannedLeg, is_translation, plan_leg, plan_mapping_leg, mapping_legs,
  translation_legs, legs_in_run_order, split_kinds, in_run_order,
}
use tz_oss_interop.Composition.Legs.Order.{
  outlines, pipelines_of, bodies_of, mapping_names, translation_names,
}
use tz_oss_interop.Composition.Routing.{
  translation_indexes, handoff_directory, final_translation, route_handoffs,
}
use tz_oss_interop.Composition.Routing.Chain.{IsLinked, StandsAlone}
use tz_oss_interop.Composition.References.{
  for_pending, find_leg, read_referenced_param, referenced_value, resolve_reference,
  resolve_leg_references, resolve_references,
}
use tz_oss_interop.Composition.Rules.{
  require_boundary, validate_boundaries, check_target, validate_reference_targets,
  referenced_pipelines, require_reference_to, validate_wiring, reject_step_overrides_on_a_chain,
  override_leg, apply_run_overrides,
}
use tz_oss_interop.Spec.{text}
use tz_oss_interop.Composition.Planning.{plan_translation}
use tz_oss_interop.Composition.Planning.Guarantees.{
  plan_translation-IsLinked, plan_translation-IsDistinct, plan_translation-HasNoReferences,
  plan_translation-IsAdjacent, plan_translation-pipelines, plan_translation-IsWiredTo,
  plan_translation_refuses_step_overrides, SharesFramework,
}
use tz_oss_interop.Examples.Manifests.{load, request, plan}

unfoldable pub program : Unit {0}
unfolding text_beq split decimal lookup insert update merge validate_indices apply_overrides
    parse_reference parse_param_address find_node read_param rewrite set_param apply_leg_params
    plan_leg plan_mapping_leg mapping_legs translation_legs legs_in_run_order split_kinds
    translation_indexes handoff_directory final_translation route_handoffs for_pending find_leg
    read_referenced_param referenced_value resolve_reference resolve_leg_references
    resolve_references require_boundary validate_boundaries check_target validate_reference_targets
    referenced_pipelines require_reference_to validate_wiring reject_step_overrides_on_a_chain
    override_leg apply_run_overrides plan_translation
program = tt

pub made : plan_translation load request ≡ ok plan
unfolding program
made = refl

plan_translation-IsLinked_example :
    IsLinked none (outlines plan.legs) × All StandsAlone (outlines plan.mappings)
plan_translation-IsLinked_example = plan_translation-IsLinked load request plan made

plan_translation-IsDistinct_example : IsDistinct (writes_of (in_run_order plan))
plan_translation-IsDistinct_example = plan_translation-IsDistinct load request plan made

plan_translation-HasNoReferences_example : All HasNoReferences (in_run_order plan)
plan_translation-HasNoReferences_example = plan_translation-HasNoReferences load request plan made

plan_translation-IsAdjacent_example : IsAdjacent SharesFramework (outlines plan.legs)
plan_translation-IsAdjacent_example = plan_translation-IsAdjacent load request plan made

plan_translation-pipelines_example :
    (pipelines_of plan.mappings ≡ mapping_names request.document)
    × (pipelines_of plan.legs ≡ translation_names request.pipeline request.document)
plan_translation-pipelines_example = plan_translation-pipelines load request plan made

plan_translation-IsWiredTo_example :
    (legs : List PlannedLeg) × (legs_in_run_order load request ≡ ok legs)
    × IsAdjacent IsWiredTo (bodies_of (keep_if is_translation legs))
plan_translation-IsWiredTo_example = plan_translation-IsWiredTo load request plan made

abbrev stepping : CompositionRequest
stepping = record request {
  overrides = record request.overrides {
    steps = (pos 0, (codes "fast", text (codes "yes")) ∷ []) ∷ [];
  };
}

steps_given : stepping.overrides.steps ≢ []
steps_given = λ e. cc e

is_chain : 1 < length (translation_names stepping.pipeline stepping.document)
is_chain = ground arith

plan_translation_refuses_step_overrides_example : plan_translation load stepping ≢ ok plan
plan_translation_refuses_step_overrides_example =
    plan_translation_refuses_step_overrides load stepping plan steps_given is_chain
