-- ===== src/Documents/Needs.antt =====
-- When a run asks the user for no mappings file: each leg's schemas are derived before it.
use tz_oss_interop.Prelude.{◌≡◌, true, false, List, [], ◌∷◌, all, contains, inl, inr, Bool-cases}
use tz_oss_interop.Prelude.Text.{Text, text_eq}
use tz_oss_interop.Prelude.Dict.{Dict, keys}
use tz_oss_interop.Errors.{ok, >>=-eq-ok}
use tz_oss_interop.Composition.Addressing.{ParamAddress}
use tz_oss_interop.Composition.Legs.{PlannedLeg, TranslationPlan, in_run_order}
use tz_oss_interop.UserMappings.{
  NodeLookups, union, collect_schemas_for_translate, collect_produced_mappings,
}
use tz_oss_interop.Documents.{needs_from, needs_user_mappings}

module _ (node_lookups : NodeLookups) where
  -- Every schema that a leg needs is among those that the legs before it derive.
  abbrev pub AreCovered : List PlannedLeg → (derived : List Text) → Type 0
  AreCovered [] derived = Unit
  AreCovered (leg ∷ legs) derived =
      (schemas : List Text) × (produced : Dict Text ParamAddress) × (collect_schemas_for_translate
          node_lookups leg.spec
        ≡ ok schemas)
      × (all (contains derived) schemas ≡ true)
      × (collect_produced_mappings node_lookups leg.spec ≡ ok produced)
      × AreCovered legs (union derived (keys produced))

  needs_from-eq-false :
      (legs : List PlannedLeg) (derived : List Text)
      → needs_from node_lookups legs derived ≡ ok false
      → AreCovered legs derived
  unfolding needs_from
  needs_from-eq-false [] derived h = tt
  needs_from-eq-false (leg ∷ legs) derived h =
      let (schemas, collected, rest) =
        >>=-eq-ok (collect_schemas_for_translate node_lookups leg.spec) _ h in
      elim (Bool-cases (all (contains derived) schemas)) [
        | inl covered ↦
            let (produced, made, later) =
              >>=-eq-ok (collect_produced_mappings node_lookups leg.spec)
                (λ p. needs_from node_lookups legs (union derived (keys p))) (rw covered at rest) in
            (
              schemas,
              produced,
              collected,
              covered,
              made,
              needs_from-eq-false legs (union derived (keys produced)) later,
            )
        | inr missing ↦ absurd (cc (rw missing at rest))
      ]

  -- Where a plan is said to need no mappings file of the user, every schema that the nodes of one of
  -- its legs need is written by a sink of a leg that runs before it.
  pub needs_user_mappings-AreCovered :
      (plan : TranslationPlan)
      → needs_user_mappings node_lookups plan ≡ ok false
      → AreCovered (in_run_order plan) []
  unfolding needs_user_mappings
  needs_user_mappings-AreCovered plan h = needs_from-eq-false (in_run_order plan) [] h
