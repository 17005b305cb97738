-- ===== src/Documents.antt =====
-- interop/core/composition/document.py, and the use cases that read a document without planning it:
-- interop/core/use_cases/pipeline_catalog.py and interop/core/use_cases/validate.py. The raw YAML of
-- a manifest and the two pydantic models that validate it are arguments.
pub mod Loading
pub mod Needs
use tz_oss_interop.Prelude.{
  Bool, true, false, Option, none, some, List, [], ◌∷◌, ◌++◌, map, if◌then◌else◌, ◌==◌, ◌&&◌, ◌||◌,
  contains, all, get_last?,
}
use tz_oss_interop.Prelude.Text.{Text, text_eq, codes}
use tz_oss_interop.Prelude.Dict.{Dict, keys}
use tz_oss_interop.Errors.{
  Result, ok, err, ◌>>=◌, ◌>>◌, framework_mismatch, nested_composition, derived_mappings,
  index_error, EnergyModelValidationError,
}
use tz_oss_interop.Spec.{
  Value, Fields, text, null, boolean, number, sequence, mapping, end, field, NodeSpec, PipelineSpec,
  ComposedPipelineSpec, PipelineDocument, single, composed, NodeOverrides, no_overrides,
}
use tz_oss_interop.CliOverrides.{apply_overrides}
use tz_oss_interop.Composition.Legs.{
  PlannedLeg, TranslationPlan, in_run_order, CompositionRequest, SpecLoader, load_legs,
}
use tz_oss_interop.Runner.{Action, Factories, OnValidatorsComplete, run_validation}
use tz_oss_interop.UserMappings.{
  NodeLookups, union, is_derived_elsewhere, collect_schemas_for_translate,
  collect_produced_mappings, choose_validation_input, should_ask_the_user, load_for_validation,
}

abbrev pub source_framework_of : PipelineDocument → Text
source_framework_of (single spec) = spec.source_framework
source_framework_of (composed spec) = spec.source_framework

abbrev pub destination_framework_of : PipelineDocument → Text
destination_framework_of (single spec) = spec.destination_framework
destination_framework_of (composed spec) = spec.destination_framework

-- `validate_frameworks` of interop/core/composition/document.py
unfoldable pub validate_frameworks :
    PipelineDocument → (source destination : Text) → Result (Unit {0})
validate_frameworks declared source destination =
    if source_framework_of declared == source && destination_framework_of declared == destination
    then ok tt
    else err (framework_mismatch source destination)

-- `isinstance(data, dict) and "compose" in data`
abbrev pub has_field : Text → Fields → Bool
has_field key end = false
has_field key (field (text k) v rest) = k == key || has_field key rest
has_field key (field null v rest) = has_field key rest
has_field key (field (boolean b) v rest) = has_field key rest
has_field key (field (number n) v rest) = has_field key rest
has_field key (field (sequence s) v rest) = has_field key rest
has_field key (field (mapping m) v rest) = has_field key rest

abbrev pub is_composed : Value → Bool
is_composed (mapping fields) = has_field (codes "compose") fields
is_composed null = false
is_composed (boolean b) = false
is_composed (number n) = false
is_composed (text t) = false
is_composed (sequence s) = false

-- A leg is no chain.
abbrev pub only_single : Text → PipelineDocument → Result PipelineSpec
only_single name (single spec) = ok spec
only_single name (composed spec) = err (nested_composition name)

module _ (read_pipeline_document : Text → Result Value)
    (as_composed : Value → Result ComposedPipelineSpec)
    (as_single : Value → Result PipelineSpec) where
  unfoldable pub load_pipeline_document : Text → Result PipelineDocument
  load_pipeline_document name = read_pipeline_document name >>= λ content.
      if is_composed content
      then (as_composed content >>= λ spec. ok (composed spec))
      else (as_single content >>= λ spec. ok (single spec))

  unfoldable pub load_leg_spec : Text → Result PipelineSpec
  load_leg_spec name = load_pipeline_document name >>= only_single name

-- `_needs_user_mappings`, from the legs that are left and the schemas derived so far.
unfoldable pub needs_from : NodeLookups → List PlannedLeg → List Text → Result Bool
needs_from node_lookups [] derived = ok false
needs_from node_lookups (leg ∷ legs) derived =
    collect_schemas_for_translate node_lookups leg.spec >>= λ schemas.
    if all (contains derived) schemas
    then (collect_produced_mappings node_lookups leg.spec >>= λ produced.
        needs_from node_lookups legs (union derived (keys produced)))
    else ok true

unfoldable pub needs_user_mappings : NodeLookups → TranslationPlan → Result Bool
needs_user_mappings node_lookups plan = needs_from node_lookups (in_run_order plan) []

-- `plan.legs[0]`
abbrev pub first_leg : TranslationPlan → Result PlannedLeg
first_leg plan = elim plan.legs [ [] ↦ err index_error | leg ∷ legs ↦ ok leg ]

unfoldable pub validation_needs_user_mappings : NodeLookups → TranslationPlan → Result Bool
validation_needs_user_mappings node_lookups plan = do
  first ← first_leg plan
  chosen ← choose_validation_input node_lookups first.spec (map (λ leg. leg.spec) plan.mappings)
  ok (should_ask_the_user chosen)

-- `_promptable_steps`
unfoldable pub promptable_steps : TranslationPlan → Result (List NodeSpec)
promptable_steps plan = elim plan.legs [
  | [] ↦ err index_error
  | leg ∷ [] ↦ ok leg.spec.steps
  | leg ∷ other ∷ legs ↦ ok []
]

unfoldable pub reject_derived_input : NodeLookups → Text → TranslationPlan → Result (Unit {0})
reject_derived_input node_lookups pipeline plan = do
  first ← first_leg plan
  required ← choose_validation_input node_lookups first.spec (map (λ leg. leg.spec) plan.mappings)
  if is_derived_elsewhere required then err (derived_mappings pipeline) else ok tt

-- `ValidateUsingPipeline.__call__`: what it checks before the run, and the run.
module _ {B M F U : Type 0} (load_spec : SpecLoader) (factories : Dict Text U → Factories B M)
    (node_lookups : NodeLookups) (validate_as : Text → F → Result U)
    (render : List EnergyModelValidationError → Result (Unit {0})) where
  unfoldable pub prepare_validation :
      (source destination pipeline : Text)
      → PipelineDocument
      → NodeOverrides
      → Option F
      → Result (PipelineSpec × Dict Text U)
  prepare_validation source destination pipeline document overrides own = do
    validate_frameworks document source destination
    plan ←
        load_legs load_spec
          (record { pipeline = pipeline; document = document; overrides = no_overrides })
    first ← first_leg plan
    spec ← apply_overrides first.spec overrides
    reject_derived_input node_lookups pipeline plan
    mappings ← load_for_validation validate_as node_lookups spec own
    ok (spec, mappings)

  unfoldable pub validate_pipeline :
      (source destination pipeline : Text)
      → PipelineDocument
      → NodeOverrides
      → Option F
      → Bool
      → Action (List EnergyModelValidationError)
  validate_pipeline source destination pipeline document overrides own keep_staging w =
      elim (prepare_validation source destination pipeline document overrides own) [
        | err e ↦ (err e, w)
        | ok (spec, mappings) ↦
            run_validation (factories mappings) spec keep_staging (some render) w
      ]
