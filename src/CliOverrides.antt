-- ===== src/CliOverrides.antt =====
-- interop/core/cli_overrides.py: the params a caller supplies, laid over what a manifest says.
pub mod Effect
pub mod Phases
use tz_oss_interop.Prelude.{
  ℕ, zero, suc, ◌+◌, Bool, true, false, Option, none, some, List, [], ◌∷◌, ◌&&◌, if◌then◌else◌,
  length,
}
use tz_oss_interop.Prelude.Text.{Text, text_eq}
use tz_oss_interop.Prelude.Int.{ℤ, pos, negsuc, leb_ℤ, ltb_ℤ, int_eq}
use tz_oss_interop.Prelude.Dict.{Dict, lookup, update, keys}
use tz_oss_interop.Errors.{NodeKind, step, sink, Result, ok, err, ◌>>=◌, ◌>>◌, override_index}
use tz_oss_interop.Spec.{Params, NodeSpec, PipelineSpec, NodeOverrides}

-- `overrides.get(index, {})`
abbrev pub params_at : Dict ℤ Params → ℤ → Params
params_at overrides index = elim (lookup index overrides) [ none ↦ [] | some params ↦ params ]

unfoldable pub merge : NodeSpec → Params → NodeSpec
merge node [] = node
merge node (entry ∷ rest) = record node { params = update node.params (entry ∷ rest) }

unfoldable pub validate_indices : NodeKind → List ℤ → ℕ → Result (Unit {0})
validate_indices kind [] count = ok tt
validate_indices kind (index ∷ rest) count =
    if leb_ℤ (pos 0) index && ltb_ℤ index (pos count)
    then validate_indices kind rest count
    else err (override_index kind index count)

-- `[_merge(node, overrides.get(idx, {})) for idx, node in enumerate(nodes)]`, from index `first`.
unfoldable pub merge_indexed : ℕ → List NodeSpec → Dict ℤ Params → List NodeSpec
merge_indexed first [] overrides = []
merge_indexed first (node ∷ nodes) overrides =
    merge node (params_at overrides (pos first)) ∷ merge_indexed (first + 1) nodes overrides

unfoldable pub apply_overrides : PipelineSpec → NodeOverrides → Result PipelineSpec
unfolding merge_indexed
apply_overrides spec overrides = do
  validate_indices step (keys overrides.steps) (length spec.steps)
  validate_indices sink (keys overrides.sinks) (length spec.sinks)
  ok (record spec {
    source = merge spec.source overrides.source;
    steps = merge_indexed 0 spec.steps overrides.steps;
    sinks = merge_indexed 0 spec.sinks overrides.sinks;
  })
