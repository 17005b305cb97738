-- ===== src/Composition/Addressing.antt =====
-- interop/core/composition/addressing.py: `<node>.<param>` names a param of a pipeline's node, and
-- `$<pipeline>.<node>.<param>` is a value that reads one. The proofs are in the child modules.
pub mod Syntax
pub mod Access
pub mod LegParams
use tz_oss_interop.Prelude.{
  ℕ, Bool, true, false, ◌&&◌, Option, none, some, List, [], ◌∷◌, ◌++◌, map, if◌then◌else◌, ◌==◌,
  nat_beq, keep_if,
}
use tz_oss_interop.Prelude.Text.{Text, text_eq, split}
use tz_oss_interop.Prelude.Dict.{lookup, insert}
use tz_oss_interop.Errors.{
  Result, ok, err, ◌>>=◌, ◌>>◌, fold_result, malformed_reference, malformed_param_key,
  duplicated_node, missing_node, unset_param,
}
use tz_oss_interop.Spec.{Value, text, Params, NodeSpec, PipelineSpec}

abbrev pub segment_separator : ℕ
segment_separator = b'.'

abbrev pub reference_prefix : ℕ
reference_prefix = b'$'

pub record ParamAddress : Type 0 where
  pub node : Text
  pub param : Text

pub record Reference : Type 0 where
  pub pipeline : Text
  pub address : ParamAddress

-- `ParamAddress.__str__`
abbrev pub show_address : ParamAddress → Text
show_address a = a.node ++ segment_separator ∷ a.param

-- `Reference.__str__`
abbrev pub show_reference : Reference → Text
show_reference r = reference_prefix ∷ r.pipeline ++ segment_separator ∷ show_address r.address

-- The truth value of a string.
abbrev pub is_nonempty : Text → Bool
is_nonempty [] = false
is_nonempty (c ∷ s) = true

reference_of : Text → List Text → Result (Option Reference)
reference_of value (pipeline ∷ node ∷ param ∷ []) =
    if is_nonempty pipeline && is_nonempty node && is_nonempty param
    then ok (some (record { pipeline = pipeline; address = record { node = node; param = param } }))
    else err (malformed_reference value)
reference_of value _ = err (malformed_reference value)

unfoldable pub parse_reference : Value → Result (Option Reference)
unfolding reference_of
parse_reference (text (c ∷ s)) =
    if nat_beq c reference_prefix then reference_of (c ∷ s) (split segment_separator s) else ok none
parse_reference _ = ok none

address_of : Text → List Text → Result ParamAddress
address_of key (node ∷ param ∷ []) =
    if is_nonempty node && is_nonempty param
    then ok (record { node = node; param = param })
    else err (malformed_param_key key)
address_of key _ = err (malformed_param_key key)

unfoldable pub parse_param_address : Text → Result ParamAddress
unfolding address_of
parse_param_address key = address_of key (split segment_separator key)

abbrev pub nodes_of : PipelineSpec → List NodeSpec
nodes_of spec = spec.source ∷ spec.steps ++ spec.sinks

the_one : Text → Text → List NodeSpec → Result NodeSpec
the_one pipeline node [] = err (missing_node pipeline node)
the_one pipeline node (match ∷ []) = ok match
the_one pipeline node (match ∷ other ∷ rest) = err (duplicated_node pipeline node)

unfoldable pub find_node : Text → PipelineSpec → Text → Result NodeSpec
unfolding the_one
find_node pipeline spec node =
    the_one pipeline node (keep_if (λ candidate. candidate.name == node) (nodes_of spec))

abbrev pub param_or_raise : Text → ParamAddress → Option Value → Result Value
param_or_raise pipeline address none = err (unset_param pipeline address.node address.param)
param_or_raise pipeline address (some value) = ok value

unfoldable pub read_param : Text → PipelineSpec → ParamAddress → Result Value
read_param pipeline spec address = do
  node ← find_node pipeline spec address.node
  param_or_raise pipeline address (lookup address.param node.params)

unfoldable pub rewrite : ParamAddress → Value → NodeSpec → NodeSpec
rewrite address value node =
    if node.name == address.node
    then record node { params = insert address.param value node.params }
    else node

-- `set_param` once the node is found.
unfoldable pub with_param : PipelineSpec → ParamAddress → Value → PipelineSpec
with_param spec address value = record spec {
  source = rewrite address value spec.source;
  steps = map (rewrite address value) spec.steps;
  sinks = map (rewrite address value) spec.sinks;
}

unfoldable pub set_param : Text → PipelineSpec → ParamAddress → Value → Result PipelineSpec
unfolding with_param
set_param pipeline spec address value =
    find_node pipeline spec address.node >> ok (with_param spec address value)

-- One round of the loop of `apply_leg_params`.
unfoldable pub apply_leg_param : Text → PipelineSpec → Text × Value → Result PipelineSpec
apply_leg_param pipeline spec (key, value) = do
  address ← parse_param_address key
  set_param pipeline spec address value

unfoldable pub apply_leg_params : Text → PipelineSpec → Params → Result PipelineSpec
unfolding apply_leg_param
apply_leg_params pipeline spec params = fold_result (apply_leg_param pipeline) spec params
