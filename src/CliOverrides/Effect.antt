-- ===== src/CliOverrides/Effect.antt =====
-- When overrides are accepted, and what they change.
use mathlib.Core.Option
use native.Mathlib.Nat.{zero-add}
use tz_oss_interop.Prelude.{
  ℕ, zero, suc, ◌+◌, ◌<◌, ◌≡◌, refl, sym, subst, ap, ap₂, ◌∙◌, ◌↔◌, Option, none, some, List, [],
  ◌∷◌, arith, length, get_elem?, All,
}
use tz_oss_interop.Prelude.Text.{Text, text_eq}
use tz_oss_interop.Prelude.Int.{ℤ, pos, negsuc, int_eq}
use tz_oss_interop.Prelude.Dict.{Dict, lookup, keys, IsDict, or_else, lookup-update}
use tz_oss_interop.Errors.{NodeKind, step, sink, ok, >>=-eq-ok}
use tz_oss_interop.Spec.{Params, NodeSpec, PipelineSpec, NodeOverrides, no_overrides}
use tz_oss_interop.CliOverrides.{params_at, merge, validate_indices, merge_indexed, apply_overrides}
use tz_oss_interop.Composition.Addressing.LegParams.{names, SameShape}

-- The integer is the index of one of `count` things.
abbrev pub IsIndex : ℕ → ℤ → Type 0
IsIndex count index = (i : ℕ) × (index ≡ pos i) × (i < count)

pub validate_indices_iff :
    (kind : NodeKind) (indices : List ℤ) (count : ℕ)
    → (validate_indices kind indices count ≡ ok tt) ↔ All (IsIndex count) indices
unfolding validate_indices
validate_indices_iff kind [] count = ((λ _. tt), λ _. refl)
validate_indices_iff kind (pos i ∷ rest) count =
    let (to, from) = validate_indices_iff kind rest count in
    (
      (λ h. ((i, refl, ground arith), to (ground arith))),
      λ h. let (j, same, small) = h.0 in ground (arith, from h.1, same, small),
    )
validate_indices_iff kind (negsuc n ∷ rest) count =
    ((λ h. absurd (ground arith)), λ h. let (j, same, small) = h.0 in absurd (cc same))

-- The pipeline that accepted overrides give.
abbrev overridden : PipelineSpec → NodeOverrides → PipelineSpec
overridden spec o = record spec {
  source = merge spec.source o.source;
  steps = merge_indexed 0 spec.steps o.steps;
  sinks = merge_indexed 0 spec.sinks o.sinks;
}

pub record InRange (spec : PipelineSpec) (o : NodeOverrides) : Type 0 where
  pub steps : All (IsIndex (length spec.steps)) (keys o.steps)
  pub sinks : All (IsIndex (length spec.sinks)) (keys o.sinks)

apply_overrides-eq-ok :
    (spec : PipelineSpec) (o : NodeOverrides) {spec' : PipelineSpec}
    → apply_overrides spec o ≡ ok spec'
    → InRange spec o × (spec' ≡ overridden spec o)
unfolding apply_overrides
apply_overrides-eq-ok spec o h =
    let (_, in_steps, rest) =
      >>=-eq-ok (validate_indices step (keys o.steps) (length spec.steps)) _ h in
    let (_, in_sinks, e) =
      >>=-eq-ok (validate_indices sink (keys o.sinks) (length spec.sinks)) _ rest in
    (
      record {
        steps = (validate_indices_iff step (keys o.steps) (length spec.steps)).0 in_steps;
        sinks = (validate_indices_iff sink (keys o.sinks) (length spec.sinks)).0 in_sinks;
      },
      cc e,
    )

-- Overrides, their indices integers, are accepted exactly where each index of a step is that of one
-- of the pipeline's steps and each index of a sink is that of one of its sinks, from zero up.
pub apply_overrides_iff :
    (spec : PipelineSpec) (o : NodeOverrides)
    → ((spec' : PipelineSpec) × (apply_overrides spec o ≡ ok spec')) ↔ InRange spec o
apply_overrides_iff spec o = (
  (λ (_, h). (apply_overrides-eq-ok spec o h).0),
  λ h. (
    overridden spec o,
    unfold apply_overrides in
        rw (
          (validate_indices_iff step (keys o.steps) (length spec.steps)).1 h.steps,
          (validate_indices_iff sink (keys o.sinks) (length spec.sinks)).1 h.sinks,
        ),
  ),
)

lookup-merge :
    (n : NodeSpec) (o : Params) (param : Text)
    → IsDict o
    → lookup param (merge n o).params ≡ or_else (lookup param o) (lookup param n.params)
unfolding merge
lookup-merge n [] param d = unfold lookup in refl
lookup-merge n (entry ∷ rest) param d = lookup-update param n.params (entry ∷ rest) d

get_elem?-merge_indexed :
    (first : ℕ) (ns : List NodeSpec) (o : Dict ℤ Params) (i : ℕ)
    → get_elem? (merge_indexed first ns o) i
      ≡ Option.map (λ n. merge n (params_at o (pos (first + i)))) (get_elem? ns i)
unfolding merge_indexed
get_elem?-merge_indexed first [] o i = refl
get_elem?-merge_indexed first (n ∷ ns) o zero =
    ap (λ k. some (merge n (params_at o (pos k)))) (omega arith)
get_elem?-merge_indexed first (n ∷ ns) o (suc i) =
    get_elem?-merge_indexed (first + 1) ns o i
    ∙ ap (λ k. Option.map (λ m. merge m (params_at o (pos k))) (get_elem? ns i)) (omega arith)

name-merge : (n : NodeSpec) (o : Params) → (merge n o).name ≡ n.name
unfolding merge
name-merge n [] = refl
name-merge n (entry ∷ rest) = refl

-- The node before and after, where the params `o` were laid over it: the name stays, and reading
-- a param gives the override where there is one and the manifest's value where there is none.
abbrev Overridden : (before after : Option NodeSpec) → Params → Type 0
Overridden none after o = after ≡ none
Overridden (some n) after o =
    (m : NodeSpec) × (after ≡ some m)
    × (m.name ≡ n.name)
    × ((param : Text) → lookup param m.params ≡ or_else (lookup param o) (lookup param n.params))

-- What overrides do to a whole pipeline.
pub record IsEffect (before after : PipelineSpec) (o : NodeOverrides) : Type 0 where
  pub source : Overridden (some before.source) (some after.source) o.source
  pub steps :
      (i : ℕ)
      → Overridden (get_elem? before.steps i) (get_elem? after.steps i) (params_at o.steps (pos i))
  pub sinks :
      (i : ℕ)
      → Overridden (get_elem? before.sinks i) (get_elem? after.sinks i) (params_at o.sinks (pos i))
  pub source_framework : after.source_framework ≡ before.source_framework
  pub destination_framework : after.destination_framework ≡ before.destination_framework
  pub validators : after.validators ≡ before.validators

-- What Python gives for nothing: no param is overridden twice for one node.
pub record IsOverrides (o : NodeOverrides) : Type 0 where
  pub source : IsDict o.source
  pub steps : (i : ℕ) → IsDict (params_at o.steps (pos i))
  pub sinks : (i : ℕ) → IsDict (params_at o.sinks (pos i))

merge-Overridden : (n : NodeSpec) (o : Params) → IsDict o → Overridden (some n) (some (merge n o)) o
merge-Overridden n o d = (merge n o, refl, name-merge n o, λ param. lookup-merge n o param d)

Overridden-map :
    (before : Option NodeSpec) (o : Params)
    → IsDict o
    → Overridden before (Option.map (λ n. merge n o) before) o
Overridden-map none o d = refl
Overridden-map (some n) o d = merge-Overridden n o d

merge_indexed-Overridden :
    (ns : List NodeSpec) (o : Dict ℤ Params) (i : ℕ)
    → IsDict (params_at o (pos i))
    → Overridden (get_elem? ns i) (get_elem? (merge_indexed 0 ns o) i) (params_at o (pos i))
merge_indexed-Overridden ns o i d =
    rw (get_elem?-merge_indexed 0 ns o i, zero-add i)
      (Overridden-map (get_elem? ns i) (params_at o (pos i)) d)

-- Accepted overrides lay the source's params over the source and the params of each index over
-- the step or the sink of that index, and over nothing else: at every position the name stays, a
-- param reads as its override where there is one and as before where there is none, and the
-- frameworks and the validators stay.
pub apply_overrides-IsEffect :
    (spec spec' : PipelineSpec) (o : NodeOverrides)
    → IsOverrides o
    → apply_overrides spec o ≡ ok spec'
    → IsEffect spec spec' o
apply_overrides-IsEffect spec spec' o d h =
    subst (λ after. IsEffect spec after o) (sym (apply_overrides-eq-ok spec o h).1)
      (record {
        source = merge-Overridden spec.source o.source d.source;
        steps = λ i. merge_indexed-Overridden spec.steps o.steps i (d.steps i);
        sinks = λ i. merge_indexed-Overridden spec.sinks o.sinks i (d.sinks i);
        source_framework = refl;
        destination_framework = refl;
        validators = refl;
      })

pub merge_indexed_none : (first : ℕ) (ns : List NodeSpec) → merge_indexed first ns [] ≡ ns
unfolding merge_indexed merge lookup
merge_indexed_none first [] = refl
merge_indexed_none first (n ∷ ns) = ap (λ rest. n ∷ rest) (merge_indexed_none (first + 1) ns)

-- With no overrides the pipeline is the manifest's.
pub apply_overrides_none : (spec : PipelineSpec) → apply_overrides spec no_overrides ≡ ok spec
unfolding apply_overrides validate_indices merge
apply_overrides_none spec = rw (merge_indexed_none 0 spec.steps, merge_indexed_none 0 spec.sinks)

names-merge_indexed :
    (first : ℕ) (ns : List NodeSpec) (o : Dict ℤ Params)
    → names (merge_indexed first ns o) ≡ names ns
unfolding merge_indexed
names-merge_indexed first [] o = refl
names-merge_indexed first (n ∷ ns) o =
    ap₂ ◌∷◌ (name-merge n (params_at o (pos first))) (names-merge_indexed (first + 1) ns o)

pub apply_overrides-SameShape :
    (spec spec' : PipelineSpec) (o : NodeOverrides)
    → apply_overrides spec o ≡ ok spec'
    → SameShape spec spec'
apply_overrides-SameShape spec spec' o h =
    subst (SameShape spec) (sym (apply_overrides-eq-ok spec o h).1) (record {
      source_framework = refl;
      destination_framework = refl;
      source = sym (name-merge spec.source o.source);
      steps = sym (names-merge_indexed 0 spec.steps o.steps);
      sinks = sym (names-merge_indexed 0 spec.sinks o.sinks);
      validators = refl;
    })
