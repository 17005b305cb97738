-- ===== src/Composition/Legs/Order.antt =====
-- The order of the legs: mapping pipelines first, then the translation legs, each in the order in
-- which the document names them.
use tz_oss_interop.Prelude.{
  ◌≡◌, refl, sym, ◌∙◌, ap, ap₂, subst, Option, List, [], ◌∷◌, ◌++◌, map, append-nil, keep_if,
  keep_if-append, All, arith,
}
use tz_oss_interop.Prelude.Text.{Text}
use tz_oss_interop.Errors.{Result, ok, map_result, >>=-eq-ok}
use tz_oss_interop.Spec.{PipelineSpec, LegSpec, PipelineDocument, single, composed}
use tz_oss_interop.Composition.Addressing.{apply_leg_params}
use tz_oss_interop.Composition.Legs.{
  LegKind, mapping, translation, PlannedLeg, is_translation, is_mapping, in_run_order, SpecLoader,
  CompositionRequest, planned_leg, plan_leg, plan_mapping_leg, mapping_legs, translation_legs,
  legs_in_run_order, split_kinds,
}

-- A leg without the params of its nodes.
pub record Outline : Type 0 where
  pub pipeline : Text
  pub kind : LegKind
  pub source_framework : Text
  pub destination_framework : Text
  pub reads_handoff_from : Option Text
  pub writes_handoff_to : Option Text

abbrev pub outline : PlannedLeg → Outline
outline leg = record {
  pipeline = leg.pipeline;
  kind = leg.kind;
  source_framework = leg.spec.source_framework;
  destination_framework = leg.spec.destination_framework;
  reads_handoff_from = leg.reads_handoff_from;
  writes_handoff_to = leg.writes_handoff_to;
}

abbrev pub outlines : List PlannedLeg → List Outline
outlines legs = map outline legs

abbrev pub IsMappings : List PlannedLeg → Type 0
IsMappings legs = All (λ leg. leg.kind ≡ mapping) legs

abbrev pub IsTranslations : List PlannedLeg → Type 0
IsTranslations legs = All (λ leg. leg.kind ≡ translation) legs

-- Mapping legs, then translation legs.
pub record IsRunOrder (planned : List PlannedLeg) : Type 0 where
  pub mappings : List PlannedLeg
  pub translations : List PlannedLeg
  pub whole : planned ≡ mappings ++ translations
  pub mapping_kinds : IsMappings mappings
  pub translation_kinds : IsTranslations translations

keep_mappings : (ms : List PlannedLeg) → IsMappings ms → keep_if is_mapping ms ≡ ms
keep_mappings [] h = refl
keep_mappings (m ∷ ms) h = ground (arith, keep_mappings ms h.1)

drop_mappings : (ms : List PlannedLeg) → IsMappings ms → keep_if is_translation ms ≡ []
drop_mappings [] h = refl
drop_mappings (m ∷ ms) h = ground (arith, drop_mappings ms h.1)

keep_translations : (ts : List PlannedLeg) → IsTranslations ts → keep_if is_translation ts ≡ ts
keep_translations [] h = refl
keep_translations (t ∷ ts) h = ground (arith, keep_translations ts h.1)

drop_translations : (ts : List PlannedLeg) → IsTranslations ts → keep_if is_mapping ts ≡ []
drop_translations [] h = refl
drop_translations (t ∷ ts) h = ground (arith, drop_translations ts h.1)

module _ (planned : List PlannedLeg) (h : IsRunOrder planned) where
  pub legs-split_kinds : keep_if is_translation planned ≡ h.translations
  legs-split_kinds =
      ap (keep_if is_translation) h.whole
      ∙ keep_if-append is_translation h.mappings h.translations
      ∙ ap₂ ◌++◌ (drop_mappings h.mappings h.mapping_kinds)
          (keep_translations h.translations h.translation_kinds)

  pub mappings-split_kinds : keep_if is_mapping planned ≡ h.mappings
  mappings-split_kinds =
      ap (keep_if is_mapping) h.whole
      ∙ keep_if-append is_mapping h.mappings h.translations
      ∙ ap₂ ◌++◌ (keep_mappings h.mappings h.mapping_kinds)
          (drop_translations h.translations h.translation_kinds)
      ∙ append-nil h.mappings

  pub in_run_order-split_kinds : in_run_order (split_kinds planned) ≡ planned
  unfolding split_kinds
  in_run_order-split_kinds = ap₂ ◌++◌ mappings-split_kinds legs-split_kinds ∙ sym h.whole

-- The pipelines that a document names, in the order in which they run.
abbrev pub mapping_names : PipelineDocument → List Text
mapping_names (single spec) = []
mapping_names (composed document) = map (λ entry. entry.pipeline) document.mappings

abbrev pub translation_names : Text → PipelineDocument → List Text
translation_names name (single spec) = name ∷ []
translation_names name (composed document) = map (λ entry. entry.pipeline) document.compose

abbrev pub pipelines_of : List PlannedLeg → List Text
pipelines_of legs = map (λ leg. leg.pipeline) legs

-- What a leg runs: its pipeline's name, and the pipeline.
abbrev pub bodies_of : List PlannedLeg → List (Text × PipelineSpec)
bodies_of legs = map (λ leg. (leg.pipeline, leg.spec)) legs

abbrev pub specs_of : List PlannedLeg → List PipelineSpec
specs_of legs = map (λ leg. leg.spec) legs

module _ (load_spec : SpecLoader) where
  plan_leg-eq-ok :
      (entry : LegSpec) (leg : PlannedLeg)
      → plan_leg load_spec entry ≡ ok leg
      → (leg.pipeline ≡ entry.pipeline) × (leg.kind ≡ translation)
  unfolding plan_leg
  plan_leg-eq-ok entry leg h =
      let (loaded, _, rest) = >>=-eq-ok (load_spec entry.pipeline) _ h in
      let (spec, _, e) = >>=-eq-ok (apply_leg_params entry.pipeline loaded entry.params) _ rest in
      (cc e, cc e)

  plan_mapping_leg-eq-ok :
      (entry : LegSpec) (leg : PlannedLeg)
      → plan_mapping_leg load_spec entry ≡ ok leg
      → (leg.pipeline ≡ entry.pipeline) × (leg.kind ≡ mapping)
  unfolding plan_mapping_leg
  plan_mapping_leg-eq-ok entry leg h =
      let (before, first, e) = >>=-eq-ok (plan_leg load_spec entry) _ h in
      let (name, _) = plan_leg-eq-ok entry before first in (cc (e, name), cc e)

-- The legs are those of the entries, all of one kind.
abbrev AreLegsOf : LegKind → List LegSpec → List PlannedLeg → Type 0
AreLegsOf kind entries legs =
    (pipelines_of legs ≡ map (λ entry. entry.pipeline) entries) × All (λ leg. leg.kind ≡ kind) legs

module _ (f : LegSpec → Result PlannedLeg) (kind : LegKind)
    (each : (entry : LegSpec) (leg : PlannedLeg)
      → f entry ≡ ok leg
      → (leg.pipeline ≡ entry.pipeline) × (leg.kind ≡ kind)) where
  map_result-AreLegsOf :
      (entries : List LegSpec) (legs : List PlannedLeg)
      → map_result f entries ≡ ok legs
      → AreLegsOf kind entries legs
  map_result-AreLegsOf [] legs h =
      let e : [] ≡ legs = cc h in subst (AreLegsOf kind []) e (refl, tt)
  map_result-AreLegsOf (entry ∷ entries) legs h =
      let (leg, first, rest) = >>=-eq-ok (f entry) _ h in
      let (more, others, e) = >>=-eq-ok (map_result f entries) _ rest in
      let (name, its_kind) = each entry leg first in
      let (names, kinds) = map_result-AreLegsOf entries more others in
      let whole : leg ∷ more ≡ legs = cc e in
      subst (AreLegsOf kind (entry ∷ entries)) whole (ap₂ ◌∷◌ name names, (its_kind, kinds))

-- What `legs_in_run_order` gives for a request.
pub record IsOrderOf (request : CompositionRequest) (planned : List PlannedLeg) : Type 0 where
  pub order : IsRunOrder planned
  pub mapping_pipelines : pipelines_of order.mappings ≡ mapping_names request.document
  pub translation_pipelines :
      pipelines_of order.translations ≡ translation_names request.pipeline request.document

module _ (load_spec : SpecLoader) where
  mapping_legs-lem :
      (document : PipelineDocument) (ms : List PlannedLeg)
      → mapping_legs load_spec document ≡ ok ms
      → (pipelines_of ms ≡ mapping_names document) × IsMappings ms
  unfolding mapping_legs
  mapping_legs-lem (single spec) ms h =
      let e : [] ≡ ms = cc h in subst (λ ls. (pipelines_of ls ≡ []) × IsMappings ls) e (refl, tt)
  mapping_legs-lem (composed document) ms h =
      map_result-AreLegsOf (plan_mapping_leg load_spec) mapping (plan_mapping_leg-eq-ok load_spec)
        document.mappings ms h

  translation_legs-lem :
      (name : Text) (document : PipelineDocument) (ts : List PlannedLeg)
      → translation_legs load_spec name document ≡ ok ts
      → (pipelines_of ts ≡ translation_names name document) × IsTranslations ts
  unfolding translation_legs
  translation_legs-lem name (single spec) ts h =
      let e : planned_leg name spec ∷ [] ≡ ts = cc h in
      subst (λ ls. (pipelines_of ls ≡ name ∷ []) × IsTranslations ls) e (refl, (refl, tt))
  translation_legs-lem name (composed document) ts h =
      map_result-AreLegsOf (plan_leg load_spec) translation (plan_leg-eq-ok load_spec)
        document.compose ts h

  pub legs_in_run_order-IsOrderOf :
      (request : CompositionRequest) (planned : List PlannedLeg)
      → legs_in_run_order load_spec request ≡ ok planned
      → IsOrderOf request planned
  unfolding legs_in_run_order
  legs_in_run_order-IsOrderOf request planned h =
      let (ms, first, rest) = >>=-eq-ok (mapping_legs load_spec request.document) _ h in
      let (ts, second, e) =
        >>=-eq-ok (translation_legs load_spec request.pipeline request.document) _ rest in
      let (m_names, m_kinds) = mapping_legs-lem request.document ms first in
      let (t_names, t_kinds) = translation_legs-lem request.pipeline request.document ts second in
      record {
        order = record {
          mappings = ms;
          translations = ts;
          whole = cc e;
          mapping_kinds = m_kinds;
          translation_kinds = t_kinds;
        };
        mapping_pipelines = m_names;
        translation_pipelines = t_names;
      }
