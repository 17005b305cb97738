-- ===== src/Composition/Planning/Guarantees.antt =====
-- What holds of every plan that `plan_translation` gives.
use tz_oss_interop.Prelude.{
  ◌<◌, ◌≡◌, ◌≢◌, refl, sym, ◌∙◌, ap, ap₂, subst, Bool, none, List, [], ◌∷◌, ◌++◌, map, map-append,
  arith, keep_if, length, length-map, All, All-append, not, inl, inr, Bool-cases,
}
use tz_oss_interop.Prelude.Text.{Text}
use tz_oss_interop.Errors.{ok}
use tz_oss_interop.Composition.Legs.{
  PlannedLeg, is_translation, is_translation_kind, is_mapping, TranslationPlan, in_run_order,
  SpecLoader, CompositionRequest, legs_in_run_order, split_kinds,
}
use tz_oss_interop.Composition.Legs.Order.{
  Outline, outline, outlines, pipelines_of, bodies_of, IsOrderOf, legs-split_kinds,
  mappings-split_kinds, mapping_names, translation_names, legs_in_run_order-IsOrderOf,
}
use tz_oss_interop.Composition.Routing.{translation_indexes}
use tz_oss_interop.Composition.Routing.Indexes.{length-translation_indexes}
use tz_oss_interop.Composition.Routing.Chain.{
  IsLinked, StandsAlone, IsRouted, route_handoffs-IsRouted,
}
use tz_oss_interop.Composition.Routing.Distinct.{IsDistinct, writes_of, route_handoffs-IsDistinct}
use tz_oss_interop.Composition.References.Resolution.{HasNoReferences, resolve_references-lem}
use tz_oss_interop.Composition.Rules.Soundness.{
  IsAdjacent, SharesBoundary, validate_boundaries_iff, IsWiredTo, validate_wiring_sound,
}
use tz_oss_interop.Composition.Rules.RunOverrides.{
  apply_run_overrides-outlines, apply_run_overrides_chain,
}
use tz_oss_interop.Composition.Planning.{plan_translation}
use tz_oss_interop.Composition.Planning.Stages.{Stages, stages}

outlines-keep_translations :
    (legs : List PlannedLeg)
    → outlines (keep_if is_translation legs)
      ≡ keep_if (λ o. is_translation_kind o.kind) (outlines legs)
outlines-keep_translations [] = refl
outlines-keep_translations (leg ∷ legs) = ground (arith, outlines-keep_translations legs)

outlines-keep_mappings :
    (legs : List PlannedLeg)
    → outlines (keep_if is_mapping legs)
      ≡ keep_if (λ o. not (is_translation_kind o.kind)) (outlines legs)
outlines-keep_mappings [] = refl
outlines-keep_mappings (leg ∷ legs) = ground (arith, outlines-keep_mappings legs)

-- Legs with the outlines of others have their pipelines and their ends.
abbrev names_in : List Outline → List Text
names_in os = map (λ o. o.pipeline) os

pipelines_of-outlines : (legs : List PlannedLeg) → pipelines_of legs ≡ names_in (outlines legs)
pipelines_of-outlines [] = refl
pipelines_of-outlines (leg ∷ legs) = ap (λ rest. leg.pipeline ∷ rest) (pipelines_of-outlines legs)

writes_of-outlines :
    (legs : List PlannedLeg) → writes_of legs ≡ map (λ o. o.writes_handoff_to) (outlines legs)
writes_of-outlines [] = refl
writes_of-outlines (leg ∷ legs) =
    ap (λ rest. leg.writes_handoff_to ∷ rest) (writes_of-outlines legs)

-- Each leg ends in the framework that the next one starts from.
abbrev pub SharesFramework : Outline → Outline → Type 0
SharesFramework upstream downstream = upstream.destination_framework ≡ downstream.source_framework

IsAdjacent-outlines :
    (legs : List PlannedLeg)
    → IsAdjacent SharesBoundary legs
    → IsAdjacent SharesFramework (outlines legs)
IsAdjacent-outlines [] h = tt
IsAdjacent-outlines (u ∷ []) h = tt
IsAdjacent-outlines (u ∷ d ∷ legs) h = (h.0, IsAdjacent-outlines (d ∷ legs) h.1)

All-keep_if :
    (P : PlannedLeg → Type 0) (p : PlannedLeg → Bool) (legs : List PlannedLeg)
    → All P legs
    → All P (keep_if p legs)
All-keep_if P p [] h = tt
All-keep_if P p (leg ∷ legs) h =
    let ih = All-keep_if P p legs h.1 in
    elim (Bool-cases (p leg)) [ inl kept ↦ rw kept (h.0, ih) | inr dropped ↦ rw dropped ih ]

module _ (load_spec : SpecLoader) (request : CompositionRequest) (plan : TranslationPlan)
    (made : plan_translation load_spec request ≡ ok plan) where
  made-Stages : Stages load_spec request plan
  made-Stages = stages load_spec request plan made

  open made-Stages use {
    planned, routed, overridden, resolved, loaded, routing, boundaries, targets, wiring, overriding,
    resolving, splitting,
  }

  ordered : IsOrderOf request planned
  ordered = legs_in_run_order-IsOrderOf load_spec request planned loaded

  is_routed : IsRouted planned ordered.order routed
  is_routed = route_handoffs-IsRouted planned routed ordered.order routing

  outlines_kept : outlines resolved ≡ outlines routed
  outlines_kept =
      (resolve_references-lem overridden resolved resolving).1
      ∙ apply_run_overrides-outlines routed overridden request.overrides overriding

  plan_legs : outlines plan.legs ≡ outlines is_routed.order.translations
  unfolding split_kinds
  plan_legs =
      ap (λ p. outlines p.legs) (sym splitting)
      ∙ outlines-keep_translations resolved
      ∙ ap (keep_if (λ o. is_translation_kind o.kind)) outlines_kept
      ∙ sym (outlines-keep_translations routed)
      ∙ ap outlines (legs-split_kinds routed is_routed.order)

  plan_mappings : outlines plan.mappings ≡ outlines is_routed.order.mappings
  unfolding split_kinds
  plan_mappings =
      ap (λ p. outlines p.mappings) (sym splitting)
      ∙ outlines-keep_mappings resolved
      ∙ ap (keep_if (λ o. not (is_translation_kind o.kind))) outlines_kept
      ∙ sym (outlines-keep_mappings routed)
      ∙ ap outlines (mappings-split_kinds routed is_routed.order)

  plan-in_run_order : outlines (in_run_order plan) ≡ outlines routed
  plan-in_run_order =
      map-append outline plan.mappings plan.legs
      ∙ ap₂ ◌++◌ plan_mappings plan_legs
      ∙ sym (map-append outline is_routed.order.mappings is_routed.order.translations)
      ∙ ap outlines (sym is_routed.order.whole)

  -- The translation legs of a plan hand on to one another: the first reads no hand-off, each later
  -- one reads the directory that the leg before it writes, and the last writes none. Each mapping
  -- leg reads no hand-off and writes to a directory.
  pub plan_translation-IsLinked :
      IsLinked none (outlines plan.legs) × All StandsAlone (outlines plan.mappings)
  plan_translation-IsLinked = (
    subst (IsLinked none) (sym plan_legs) is_routed.linked,
    subst (All StandsAlone) (sym plan_mappings) is_routed.alone,
  )

  -- No two legs of a plan write to one hand-off directory, mapping legs included.
  pub plan_translation-IsDistinct : IsDistinct (writes_of (in_run_order plan))
  plan_translation-IsDistinct =
      subst IsDistinct
        (writes_of-outlines routed
          ∙ ap (map (λ o. o.writes_handoff_to)) (sym plan-in_run_order)
          ∙ sym (writes_of-outlines (in_run_order plan)))
        (route_handoffs-IsDistinct planned routed routing)

  -- No param of the source, of a step or of a sink of any leg of a plan is still a reference.
  -- Nothing is said of a leg's validators.
  pub plan_translation-HasNoReferences : All HasNoReferences (in_run_order plan)
  unfolding split_kinds
  plan_translation-HasNoReferences =
      let plain = (resolve_references-lem overridden resolved resolving).0 in
      subst (λ p. All HasNoReferences (in_run_order p)) splitting
        (All-append HasNoReferences (keep_if is_mapping resolved) (keep_if is_translation resolved)
          (All-keep_if HasNoReferences is_mapping resolved plain)
          (All-keep_if HasNoReferences is_translation resolved plain))

  -- Each translation leg of a plan ends in the framework that the next one starts from.
  pub plan_translation-IsAdjacent : IsAdjacent SharesFramework (outlines plan.legs)
  plan_translation-IsAdjacent =
      let shared =
        IsAdjacent-outlines (keep_if is_translation routed)
          ((validate_boundaries_iff (keep_if is_translation routed)).0 boundaries) in
      subst (IsAdjacent SharesFramework)
        (ap outlines (legs-split_kinds routed is_routed.order) ∙ sym plan_legs) shared

  -- A plan runs the pipelines that the document names, in its order: the mapping pipelines first,
  -- then the translation pipelines.
  pub plan_translation-pipelines :
      (pipelines_of plan.mappings ≡ mapping_names request.document)
      × (pipelines_of plan.legs ≡ translation_names request.pipeline request.document)
  plan_translation-pipelines = (
    pipelines_of-outlines plan.mappings
        ∙ ap names_in plan_mappings
        ∙ sym (pipelines_of-outlines is_routed.order.mappings)
        ∙ is_routed.mapping_pipelines
        ∙ ordered.mapping_pipelines,
    pipelines_of-outlines plan.legs
        ∙ ap names_in plan_legs
        ∙ sym (pipelines_of-outlines is_routed.order.translations)
        ∙ is_routed.translation_pipelines
        ∙ ordered.translation_pipelines,
  )

  -- Before it is resolved, each translation leg after the first has a param that refers to the leg
  -- before it: the loaded legs of a plan that is made are wired.
  pub plan_translation-IsWiredTo :
      (legs : List PlannedLeg) × (legs_in_run_order load_spec request ≡ ok legs)
      × IsAdjacent IsWiredTo (bodies_of (keep_if is_translation legs))
  plan_translation-IsWiredTo = (
    planned,
    loaded,
    subst (IsAdjacent IsWiredTo)
        (ap bodies_of (legs-split_kinds routed is_routed.order)
          ∙ is_routed.bodies
          ∙ ap bodies_of (sym (legs-split_kinds planned ordered.order)))
        (validate_wiring_sound (keep_if is_translation routed) wiring),
  )

-- A request that overrides a step of a chain of two or more translation legs is never planned.
pub plan_translation_refuses_step_overrides :
    (load_spec : SpecLoader) (request : CompositionRequest) (plan : TranslationPlan)
    → request.overrides.steps ≢ []
    → 1 < length (translation_names request.pipeline request.document)
    → plan_translation load_spec request ≢ ok plan
plan_translation_refuses_step_overrides load_spec request plan some_steps chain made =
    let s = stages load_spec request plan made in
    let o = legs_in_run_order-IsOrderOf load_spec request s.planned s.loaded in
    let r = route_handoffs-IsRouted s.planned s.routed o.order s.routing in
    let count : length (translation_indexes s.routed)
        ≡ length (translation_names request.pipeline request.document) =
      length-translation_indexes s.routed r.order
      ∙ sym (length-map (λ leg. leg.pipeline) r.order.translations)
      ∙ ap length r.translation_pipelines
      ∙ ap length o.translation_pipelines in
    let refused = apply_run_overrides_chain s.routed request.overrides some_steps (omega arith) in
    absurd (cc (refused, s.overriding))
