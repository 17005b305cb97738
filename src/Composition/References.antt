-- ===== src/Composition/References.antt =====
-- The references between legs, from interop/core/composition/planning.py: `_pending_references`
-- yields them one at a time, so a malformed value is raised only once the loop reaches it.
pub mod Settled
pub mod Resolution
pub mod Dereference
use tz_oss_interop.Prelude.{
  Bool, true, false, Option, none, some, List, [], ◌∷◌, ◌++◌, map, if◌then◌else◌, ◌==◌,
}
use tz_oss_interop.Prelude.Text.{Text, text_eq}
use tz_oss_interop.Errors.{
  Result, ok, err, ◌>>=◌, ◌>>◌, fold_result, map_result, unknown_pipeline, chained_reference,
}
use tz_oss_interop.Spec.{Value, Params, NodeSpec, PipelineSpec}
use tz_oss_interop.Composition.Addressing.{
  ParamAddress, Reference, parse_reference, nodes_of, read_param, set_param,
}
use tz_oss_interop.Composition.Legs.{PlannedLeg}

-- A param of a node, as the two inner loops of `_pending_references` visit it.
pub record Entry : Type 0 where
  pub address : ParamAddress
  pub value : Value

abbrev pub entries_of_params : Text → Params → List Entry
entries_of_params node [] = []
entries_of_params node ((param, value) ∷ rest) =
    record { address = record { node = node; param = param }; value = value }
    ∷ entries_of_params node rest

abbrev pub entries_of_nodes : List NodeSpec → List Entry
entries_of_nodes [] = []
entries_of_nodes (node ∷ nodes) = entries_of_params node.name node.params ++ entries_of_nodes nodes

abbrev pub entries_of : PipelineSpec → List Entry
entries_of spec = entries_of_nodes (nodes_of spec)

abbrev pub entries_of_legs : List PlannedLeg → List Entry
entries_of_legs [] = []
entries_of_legs (leg ∷ legs) = entries_of leg.spec ++ entries_of_legs legs

module _ {ℓ} {S : Type ℓ} where
  abbrev pub visit :
      (S → ParamAddress → Reference → Result S) → S → ParamAddress → Option Reference → Result S
  visit body s address none = ok s
  visit body s address (some reference) = body s address reference

  -- `for ... in _pending_references(legs): s = body(s)`, over the entries of the legs.
  unfoldable pub for_pending : (S → ParamAddress → Reference → Result S) → S → List Entry → Result S
  for_pending body s [] = ok s
  for_pending body s (entry ∷ entries) = do
    pending ← parse_reference entry.value
    s' ← visit body s entry.address pending
    for_pending body s' entries

unfoldable pub find_leg : Reference → List PlannedLeg → Result PlannedLeg
find_leg reference [] = err (unknown_pipeline reference.pipeline)
find_leg reference (leg ∷ legs) =
    if leg.pipeline == reference.pipeline then ok leg else find_leg reference legs

unfoldable pub read_referenced_param : PlannedLeg → Reference → Result Value
read_referenced_param producer reference =
    read_param producer.pipeline producer.spec reference.address

abbrev pub unchained : Value → Option Reference → Result Value
unchained value none = ok value
unchained value (some next) =
    err (chained_reference next.pipeline next.address.node next.address.param)

unfoldable pub referenced_value : Reference → List PlannedLeg → Result Value
referenced_value reference planned = do
  producer ← find_leg reference planned
  value ← read_referenced_param producer reference
  next ← parse_reference value
  unchained value next

-- The body of the loop of `_resolve_leg_references`.
unfoldable pub resolve_reference :
    Text → List PlannedLeg → PipelineSpec → ParamAddress → Reference → Result PipelineSpec
resolve_reference pipeline planned spec address reference = do
  value ← referenced_value reference planned
  set_param pipeline spec address value

unfoldable pub resolve_leg_references : List PlannedLeg → PlannedLeg → Result PlannedLeg
resolve_leg_references planned leg = do
  spec ← for_pending (resolve_reference leg.pipeline planned) leg.spec (entries_of leg.spec)
  ok (record leg { spec = spec })

unfoldable pub resolve_references : List PlannedLeg → Result (List PlannedLeg)
resolve_references planned = map_result (resolve_leg_references planned) planned
