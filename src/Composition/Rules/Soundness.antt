-- ===== src/Composition/Rules/Soundness.antt =====
-- What the chain rules establish, and what the overrides of a run leave alone.
use tz_oss_interop.Prelude.{
  ◌≡◌, ◌↔◌, refl, subst, ◌⊎◌, inl, inr, true, Option, none, some, List, [], ◌∷◌, arith, ◌==◌,
  contains, Bool-cases,
}
use tz_oss_interop.Prelude.Text.{Text, text_eq, text_beq_iff}
use tz_oss_interop.Errors.{Result, ok, >>=-eq-ok}
use tz_oss_interop.Spec.{PipelineSpec}
use tz_oss_interop.Composition.Addressing.{Reference, parse_reference}
use tz_oss_interop.Composition.Legs.{PlannedLeg}
use tz_oss_interop.Composition.Legs.Order.{bodies_of}
use tz_oss_interop.Composition.References.{Entry, entries_of, visit, for_pending}
use tz_oss_interop.Composition.References.Settled.{for_pending-cons}
use tz_oss_interop.Composition.Rules.{
  for_adjacent, require_boundary, validate_boundaries, add_pipeline, referenced_pipelines,
  require_reference_to, validate_wiring,
}

-- Each leg and the next one are so related.
abbrev pub IsAdjacent {ℓ} : {A : Type ℓ} → (A → A → Type 0) → List A → Type 0
IsAdjacent P [] = Unit
IsAdjacent P (leg ∷ []) = Unit
IsAdjacent P (leg ∷ next ∷ legs) = P leg next × IsAdjacent P (next ∷ legs)

module _ (rule : PlannedLeg → PlannedLeg → Result (Unit {0}))
    (P : PlannedLeg → PlannedLeg → Type 0) where
  for_adjacent_sound :
      ((u d : PlannedLeg) → rule u d ≡ ok tt → P u d)
      → (legs : List PlannedLeg) → for_adjacent rule legs ≡ ok tt
      → IsAdjacent P legs
  for_adjacent_sound sound [] h = tt
  for_adjacent_sound sound (u ∷ []) h = tt
  for_adjacent_sound sound (u ∷ d ∷ legs) h =
      let (_, one, rest) = >>=-eq-ok (rule u d) _ h in
      (sound u d one, for_adjacent_sound sound (d ∷ legs) rest)

  for_adjacent_complete :
      ((u d : PlannedLeg) → P u d → rule u d ≡ ok tt)
      → (legs : List PlannedLeg) → IsAdjacent P legs
      → for_adjacent rule legs ≡ ok tt
  for_adjacent_complete complete [] h = refl
  for_adjacent_complete complete (u ∷ []) h = refl
  for_adjacent_complete complete (u ∷ d ∷ legs) h =
      rw (complete u d h.0) (for_adjacent_complete complete (d ∷ legs) h.1)

abbrev pub SharesBoundary : PlannedLeg → PlannedLeg → Type 0
SharesBoundary upstream downstream =
    upstream.spec.destination_framework ≡ downstream.spec.source_framework

require_boundary_iff : (u d : PlannedLeg) → (require_boundary u d ≡ ok tt) ↔ SharesBoundary u d
unfolding require_boundary
require_boundary_iff u d =
    ground (arith, text_beq_iff u.spec.destination_framework d.spec.source_framework)

-- The boundary rule passes exactly where each leg ends in the framework that the next one starts
-- from.
pub validate_boundaries_iff :
    (legs : List PlannedLeg) → (validate_boundaries legs ≡ ok tt) ↔ IsAdjacent SharesBoundary legs
unfolding validate_boundaries
validate_boundaries_iff legs = (
  for_adjacent_sound require_boundary SharesBoundary (λ u d. (require_boundary_iff u d).0) legs,
  for_adjacent_complete require_boundary SharesBoundary (λ u d. (require_boundary_iff u d).1) legs,
)

-- Some entry of the list holds a reference to the pipeline.
abbrev pub RefersTo : Text → List Entry → Type 0
RefersTo name [] = ⊥
RefersTo name (entry ∷ entries) =
    ((r : Reference) × (parse_reference entry.value ≡ ok (some r)) × (r.pipeline ≡ name))
    ⊎ RefersTo name entries

collected-RefersTo :
    (name : Text) (entries : List Entry) (before after : List Text)
    → for_pending add_pipeline before entries ≡ ok after
    → contains after name ≡ true
    → (contains before name ≡ true) ⊎ RefersTo name entries
unfolding for_pending
collected-RefersTo name [] before after h found =
    let same : after ≡ before = cc h in inl (subst (λ l. contains l name ≡ true) same found)
collected-RefersTo name (entry ∷ entries) before after h found =
    let (pending, u, parsed, visited, more) =
      for_pending-cons add_pipeline before entry entries h in
    go pending u parsed visited (collected-RefersTo name entries u after more found)
  where
    go :
        (pending : Option Reference) (u : List Text)
        → parse_reference entry.value ≡ ok pending
        → visit add_pipeline before entry.address pending ≡ ok u
        → (contains u name ≡ true) ⊎ RefersTo name entries
        → (contains before name ≡ true) ⊎ RefersTo name (entry ∷ entries)
    go none u parsed visited (inr later) = inr (inr later)
    go none u parsed visited (inl held) =
        let same : u ≡ before = cc visited in inl (subst (λ l. contains l name ≡ true) same held)
    go (some r) u parsed visited (inr later) = inr (inr later)
    go (some r) u parsed visited (inl held) =
        let same : u ≡ r.pipeline ∷ before = cc visited in
        let held' = subst (λ l. contains l name ≡ true) same held in
        elim (Bool-cases (r.pipeline == name)) [
          | inl here ↦ inr (inl (r, parsed, (text_beq_iff r.pipeline name).0 here))
          | inr other ↦ inl (rw other at held')
        ]

-- A leg is wired to the one before it.
abbrev pub IsWiredTo : Text × PipelineSpec → Text × PipelineSpec → Type 0
IsWiredTo upstream downstream = RefersTo upstream.0 (entries_of downstream.1)

require_reference_to_sound :
    (u d : PlannedLeg) → require_reference_to u d ≡ ok tt → RefersTo u.pipeline (entries_of d.spec)
unfolding require_reference_to referenced_pipelines
require_reference_to_sound u d h =
    let (found, collected, rest) =
      >>=-eq-ok (for_pending add_pipeline [] (entries_of d.spec)) _ h in
    elim (Bool-cases (contains found u.pipeline)) [
      | inl held ↦
          elim (collected-RefersTo u.pipeline (entries_of d.spec) [] found collected held) [
            | inl never ↦ absurd (cc never)
            | inr refers ↦ refers
          ]
      | inr missing ↦ absurd (cc (rw missing at rest))
    ]

IsAdjacent-bodies_of :
    (legs : List PlannedLeg)
    → IsAdjacent (λ u d. RefersTo u.pipeline (entries_of d.spec)) legs
    → IsAdjacent IsWiredTo (bodies_of legs)
IsAdjacent-bodies_of [] h = tt
IsAdjacent-bodies_of (u ∷ []) h = tt
IsAdjacent-bodies_of (u ∷ d ∷ legs) h = (h.0, IsAdjacent-bodies_of (d ∷ legs) h.1)

-- The wiring rule passes only where each leg after the first refers to the leg before it.
pub validate_wiring_sound :
    (legs : List PlannedLeg) → validate_wiring legs ≡ ok tt → IsAdjacent IsWiredTo (bodies_of legs)
unfolding validate_wiring
validate_wiring_sound legs h = IsAdjacent-bodies_of legs (
    for_adjacent_sound require_reference_to (λ u d. RefersTo u.pipeline (entries_of d.spec))
      require_reference_to_sound legs h)
