-- ===== src/Composition/Rules.antt =====
-- The chain rules of interop/core/composition/planning.py, which a plan meets or is refused, and
-- the overrides of a run.
pub mod Soundness
pub mod RunOverrides
use tz_oss_interop.Prelude.{
  ℕ, zero, suc, Bool, true, false, not, ◌&&◌, Option, none, some, List, [], ◌∷◌, ltb, if◌then◌else◌,
  ◌==◌, length, contains, get_last?,
}
use tz_oss_interop.Prelude.Text.{Text, text_eq}
use tz_oss_interop.Prelude.Dict.{Dict}
use tz_oss_interop.Errors.{
  Result, ok, err, ◌>>=◌, ◌>>◌, boundary_mismatch, unwired_leg, step_override_on_chain, index_error,
}
use tz_oss_interop.Prelude.Int.{ℤ}
use tz_oss_interop.Spec.{Params, NodeOverrides, no_overrides}
use tz_oss_interop.CliOverrides.{apply_overrides}
use tz_oss_interop.Composition.Addressing.{ParamAddress, Reference}
use tz_oss_interop.Composition.Legs.{PlannedLeg}
use tz_oss_interop.Composition.Routing.{translation_indexes, subscript}
use tz_oss_interop.Composition.References.{
  for_pending, entries_of, entries_of_legs, find_leg, read_referenced_param,
}

-- `for upstream, downstream in zip(legs, legs[1:]): rule(upstream, downstream)`
abbrev pub for_adjacent :
    (PlannedLeg → PlannedLeg → Result (Unit {0})) → List PlannedLeg → Result (Unit {0})
for_adjacent rule [] = ok tt
for_adjacent rule (leg ∷ []) = ok tt
for_adjacent rule (upstream ∷ downstream ∷ legs) =
    rule upstream downstream >> for_adjacent rule (downstream ∷ legs)

unfoldable pub require_boundary : PlannedLeg → PlannedLeg → Result (Unit {0})
require_boundary upstream downstream =
    if upstream.spec.destination_framework == downstream.spec.source_framework
    then ok tt
    else err (boundary_mismatch upstream.pipeline downstream.pipeline)

unfoldable pub validate_boundaries : List PlannedLeg → Result (Unit {0})
validate_boundaries legs = for_adjacent require_boundary legs

unfoldable pub check_target :
    List PlannedLeg → Unit {0} → ParamAddress → Reference → Result (Unit {0})
check_target planned _ _ reference = do
  producer ← find_leg reference planned
  read_referenced_param producer reference
  ok tt

unfoldable pub validate_reference_targets : List PlannedLeg → Result (Unit {0})
validate_reference_targets planned = for_pending (check_target planned) tt (entries_of_legs planned)

abbrev pub add_pipeline : List Text → ParamAddress → Reference → Result (List Text)
add_pipeline referenced _ reference = ok (reference.pipeline ∷ referenced)

-- `{reference.pipeline for ... in _pending_references([leg])}`
unfoldable pub referenced_pipelines : PlannedLeg → Result (List Text)
referenced_pipelines leg = for_pending add_pipeline [] (entries_of leg.spec)

abbrev pub require_contained : List Text → PlannedLeg → PlannedLeg → Result (Unit {0})
require_contained referenced upstream downstream =
    if contains referenced upstream.pipeline
    then ok tt
    else err (unwired_leg downstream.pipeline upstream.pipeline)

unfoldable pub require_reference_to : PlannedLeg → PlannedLeg → Result (Unit {0})
require_reference_to upstream downstream = do
  referenced ← referenced_pipelines downstream
  require_contained referenced upstream downstream

unfoldable pub validate_wiring : List PlannedLeg → Result (Unit {0})
validate_wiring legs = for_adjacent require_reference_to legs

abbrev pub is_nonempty_dict : Dict ℤ Params → Bool
is_nonempty_dict [] = false
is_nonempty_dict (entry ∷ rest) = true

unfoldable pub reject_step_overrides_on_a_chain : NodeOverrides → ℕ → Result (Unit {0})
reject_step_overrides_on_a_chain overrides leg_count =
    if is_nonempty_dict overrides.steps && ltb 1 leg_count
    then err step_override_on_chain
    else ok tt

unfoldable pub override_leg : NodeOverrides → PlannedLeg → Result PlannedLeg
override_leg overrides leg = do
  spec ← apply_overrides leg.spec overrides
  ok (record leg { spec = spec })

-- `legs[index] = f(legs[index])`
abbrev pub assign_at :
    (PlannedLeg → Result PlannedLeg) → ℕ → List PlannedLeg → Result (List PlannedLeg)
assign_at f index [] = err index_error
assign_at f zero (leg ∷ legs) = do leg' ← f leg; ok (leg' ∷ legs)
assign_at f (suc index) (leg ∷ legs) = do legs' ← assign_at f index legs; ok (leg ∷ legs')

abbrev pub head? : List ℕ → Option ℕ
head? [] = none
head? (index ∷ rest) = some index

unfoldable pub apply_run_overrides : List PlannedLeg → NodeOverrides → Result (List PlannedLeg)
apply_run_overrides planned overrides = do
  let translations = translation_indexes planned
  reject_step_overrides_on_a_chain overrides (length translations)
  first ← subscript (head? translations)
  last ← subscript (get_last? translations)
  overridden ←
      assign_at
        (override_leg (record no_overrides { source = overrides.source; steps = overrides.steps }))
        first planned
  assign_at (override_leg (record no_overrides { sinks = overrides.sinks })) last overridden
