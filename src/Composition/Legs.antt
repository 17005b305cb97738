-- ===== src/Composition/Legs.antt =====
-- The legs of a run, from interop/core/composition/planning.py: what a document names, loaded and
-- in run order. A manifest is loaded by `load_spec`, which reads files and is a parameter.
pub mod Order
use tz_oss_interop.Prelude.{
  Bool, true, false, not, Option, none, some, List, [], ◌∷◌, ◌++◌, keep_if,
}
use tz_oss_interop.Prelude.Text.{Text}
use tz_oss_interop.Errors.{Result, ok, err, ◌>>=◌, map_result}
use tz_oss_interop.Spec.{
  PipelineSpec, LegSpec, ComposedPipelineSpec, PipelineDocument, single, composed, NodeOverrides,
}
use tz_oss_interop.Composition.Addressing.{apply_leg_params}

pub data LegKind : Type 0 where
  mapping translation : LegKind

-- `leg.kind is LegKind.TRANSLATION`
abbrev pub is_translation_kind : LegKind → Bool
is_translation_kind mapping = false
is_translation_kind translation = true

pub record PlannedLeg : Type 0 where
  pub pipeline : Text
  pub spec : PipelineSpec
  pub kind : LegKind
  pub reads_handoff_from : Option Text
  pub writes_handoff_to : Option Text

abbrev pub is_translation : PlannedLeg → Bool
is_translation leg = is_translation_kind leg.kind

abbrev pub is_mapping : PlannedLeg → Bool
is_mapping leg = not (is_translation_kind leg.kind)

pub record TranslationPlan : Type 0 where
  pub legs : List PlannedLeg
  pub mappings : List PlannedLeg

-- `TranslationPlan.in_run_order`
abbrev pub in_run_order : TranslationPlan → List PlannedLeg
in_run_order plan = plan.mappings ++ plan.legs

abbrev pub SpecLoader : Type 0
SpecLoader = Text → Result PipelineSpec

pub record CompositionRequest : Type 0 where
  pub pipeline : Text
  pub document : PipelineDocument
  pub overrides : NodeOverrides

-- `PlannedLeg(pipeline=..., spec=...)`, with the class's defaults.
abbrev pub planned_leg : Text → PipelineSpec → PlannedLeg
planned_leg pipeline spec = record {
  pipeline = pipeline;
  spec = spec;
  kind = translation;
  reads_handoff_from = none;
  writes_handoff_to = none;
}

module _ (load_spec : SpecLoader) where
  unfoldable pub plan_leg : LegSpec → Result PlannedLeg
  plan_leg entry = do
    loaded ← load_spec entry.pipeline
    spec ← apply_leg_params entry.pipeline loaded entry.params
    ok (planned_leg entry.pipeline spec)

  unfoldable pub plan_mapping_leg : LegSpec → Result PlannedLeg
  plan_mapping_leg entry = do leg ← plan_leg entry; ok (record leg { kind = mapping })

  unfoldable pub mapping_legs : PipelineDocument → Result (List PlannedLeg)
  mapping_legs (single spec) = ok []
  mapping_legs (composed document) = map_result plan_mapping_leg document.mappings

  unfoldable pub translation_legs : Text → PipelineDocument → Result (List PlannedLeg)
  translation_legs name (single spec) = ok (planned_leg name spec ∷ [])
  translation_legs name (composed document) = map_result plan_leg document.compose

  unfoldable pub legs_in_run_order : CompositionRequest → Result (List PlannedLeg)
  legs_in_run_order request = do
    mappings ← mapping_legs request.document
    translations ← translation_legs request.pipeline request.document
    ok (mappings ++ translations)

-- `_split`
unfoldable pub split_kinds : List PlannedLeg → TranslationPlan
split_kinds planned = record {
  legs = keep_if is_translation planned;
  mappings = keep_if is_mapping planned;
}

unfoldable pub load_legs : SpecLoader → CompositionRequest → Result TranslationPlan
load_legs load_spec request = do
  planned ← legs_in_run_order load_spec request
  ok (split_kinds planned)
