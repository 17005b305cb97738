-- ===== src/CliOverrides/Phases.antt =====
-- The inputs' overrides first and the outputs' after them are one set of overrides.
use tz_oss_interop.Prelude.{ℕ, ◌≡◌, refl, arith, []}
use tz_oss_interop.Errors.{NodeKind, ok, ◌>>=◌}
use tz_oss_interop.Spec.{NodeSpec, PipelineSpec, NodeOverrides, no_overrides}
use tz_oss_interop.CliOverrides.{merge, validate_indices, apply_overrides}
use tz_oss_interop.CliOverrides.Effect.{merge_indexed_none}

abbrev pub inputs_of : NodeOverrides → NodeOverrides
inputs_of o = record no_overrides { source = o.source; steps = o.steps }

abbrev pub outputs_of : NodeOverrides → NodeOverrides
outputs_of o = record no_overrides { sinks = o.sinks }

validate_none : (kind : NodeKind) (count : ℕ) → validate_indices kind [] count ≡ ok tt
unfolding validate_indices
validate_none kind count = refl

merge_none : (n : NodeSpec) → merge n [] ≡ n
unfolding merge
merge_none n = refl

-- Laying the overrides of the source and the steps first and those of the sinks on the result gives
-- what laying all of them at once gives, errors included.
pub apply_overrides_phases :
    (spec : PipelineSpec) (o : NodeOverrides)
    → (apply_overrides spec (inputs_of o) >>= λ s. apply_overrides s (outputs_of o))
      ≡ apply_overrides spec o
unfolding apply_overrides
apply_overrides_phases spec o = simp (merge_indexed_none, validate_none, merge_none) (ground arith)
