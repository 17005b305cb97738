-- ===== src/Composition/Rules/RunOverrides.antt =====
-- `_apply_run_overrides`: what the overrides of a run leave alone, and when they are refused.
use tz_oss_interop.Prelude.{
  ℕ, zero, suc, ◌<◌, ◌≡◌, ◌≢◌, ◌∙◌, ap, subst, List, [], ◌∷◌, arith, length, get_last?,
}
use tz_oss_interop.Errors.{ok, err, ◌>>=◌, >>=-eq-ok, step_override_on_chain}
use tz_oss_interop.Spec.{NodeOverrides}
use tz_oss_interop.CliOverrides.{apply_overrides}
use tz_oss_interop.CliOverrides.Effect.{apply_overrides-SameShape}
use tz_oss_interop.CliOverrides.Phases.{inputs_of, outputs_of, apply_overrides_phases}
use tz_oss_interop.Composition.Legs.{PlannedLeg, translation}
use tz_oss_interop.Composition.Legs.Order.{outline, outlines}
use tz_oss_interop.Composition.Routing.{translation_indexes, subscript}
use tz_oss_interop.Composition.Routing.Indexes.{indexes_of_one}
use tz_oss_interop.Composition.Rules.{
  reject_step_overrides_on_a_chain, override_leg, assign_at, head?, apply_run_overrides,
}

override_leg-outline :
    (o : NodeOverrides) (leg leg' : PlannedLeg)
    → override_leg o leg ≡ ok leg'
    → outline leg' ≡ outline leg
unfolding override_leg
override_leg-outline o leg leg' h =
    let (spec, applied, e) = >>=-eq-ok (apply_overrides leg.spec o) _ h in
    let shape = apply_overrides-SameShape leg.spec spec o applied in
    let same : record leg { spec = spec } ≡ leg' = cc e in
    subst (λ l. outline l ≡ outline leg) same
      (ground (arith, shape.source_framework, shape.destination_framework))

assign_at-outlines :
    (o : NodeOverrides) (index : ℕ) (legs legs' : List PlannedLeg)
    → assign_at (override_leg o) index legs ≡ ok legs'
    → outlines legs' ≡ outlines legs
assign_at-outlines o index [] legs' h = absurd (cc h)
assign_at-outlines o zero (leg ∷ legs) legs' h =
    let (leg', one, e) = >>=-eq-ok (override_leg o leg) _ h in
    let same : leg' ∷ legs ≡ legs' = cc e in
    subst (λ ls. outlines ls ≡ outlines (leg ∷ legs)) same
      (ap (λ l. l ∷ outlines legs) (override_leg-outline o leg leg' one))
assign_at-outlines o (suc index) (leg ∷ legs) legs' h =
    let (more, rest, e) = >>=-eq-ok (assign_at (override_leg o) index legs) _ h in
    let same : leg ∷ more ≡ legs' = cc e in
    subst (λ ls. outlines ls ≡ outlines (leg ∷ legs)) same
      (ap (λ ls. outline leg ∷ ls) (assign_at-outlines o index legs more rest))

-- The overrides of a run change params alone: each leg keeps its pipeline, kind, frameworks and
-- hand-offs.
pub apply_run_overrides-outlines :
    (planned overridden : List PlannedLeg) (o : NodeOverrides)
    → apply_run_overrides planned o ≡ ok overridden
    → outlines overridden ≡ outlines planned
unfolding apply_run_overrides
apply_run_overrides-outlines planned overridden o h =
    let indexes = translation_indexes planned in
    let inputs = inputs_of o in
    let outputs = outputs_of o in
    let (_, _, h1) = >>=-eq-ok (reject_step_overrides_on_a_chain o (length indexes)) _ h in
    let (first, _, h2) = >>=-eq-ok (subscript (head? indexes)) _ h1 in
    let (last, _, h3) = >>=-eq-ok (subscript (get_last? indexes)) _ h2 in
    let (middle, one, two) = >>=-eq-ok (assign_at (override_leg inputs) first planned) _ h3 in
    assign_at-outlines outputs last middle overridden two
    ∙ assign_at-outlines inputs first planned middle one

-- A chain takes no step override: with more than one translation leg and any step override, the
-- run is refused with that error.
pub apply_run_overrides_chain :
    (planned : List PlannedLeg) (o : NodeOverrides)
    → o.steps ≢ []
    → 1 < length (translation_indexes planned)
    → apply_run_overrides planned o ≡ err step_override_on_chain
unfolding apply_run_overrides reject_step_overrides_on_a_chain
apply_run_overrides_chain planned o some_steps chain = ground arith

-- A lone pipeline takes every override: the run's overrides are those of `apply_overrides` on it.
pub apply_run_overrides_lone :
    (leg : PlannedLeg) (o : NodeOverrides)
    → leg.kind ≡ translation
    → apply_run_overrides (leg ∷ []) o ≡ (override_leg o leg >>= λ l. ok (l ∷ []))
unfolding apply_run_overrides reject_step_overrides_on_a_chain override_leg
apply_run_overrides_lone leg o h =
    let indexed = indexes_of_one leg h in
    let phases = apply_overrides_phases leg.spec o in rw indexed (ground (arith, phases))
