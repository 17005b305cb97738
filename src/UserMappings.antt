-- ===== src/UserMappings.antt =====
-- interop/core/user_mappings.py and interop/core/user_mappings_loader.py: which user mappings files a
-- pipeline needs and writes, and their loading. A schema class is its name; the classes of the nodes
-- are an argument, since they are plugins; so is the validation of one file, which reads it and
-- applies YAML and pydantic. A frozenset is a list in some order.
pub mod Producers
pub mod Loading
use tz_oss_interop.Prelude.{
  Bool, true, false, Option, none, some, List, [], ◌∷◌, ◌++◌, map, if◌then◌else◌, ◌==◌, contains,
  keep_if, ◌&&◌, not,
}
use tz_oss_interop.Prelude.Text.{Text, codes, text_eq}
use tz_oss_interop.Prelude.Dict.{Dict, keys, lookup, insert}
use tz_oss_interop.Errors.{
  Error, Result, ok, err, ◌>>=◌, ◌>>◌, fold_result, second_producer, missing_mappings,
}
use tz_oss_interop.Spec.{NodeSpec, PipelineSpec}
use tz_oss_interop.Composition.Addressing.{ParamAddress}

pub record UserMappingsOutput : Type 0 where
  pub schema : Text
  pub path_param : Text

-- The type hints of an `__init__`: each a name, and the schema where the hint is a subclass of
-- `UserMappings`.
abbrev pub Hints : Type 0
Hints = List (Text × Option Text)

-- The classes of the nodes, as the loader reads them: their hints, or for a sink what it declares.
pub record NodeLookups : Type 0 where
  pub source : Text → Result Hints
  pub step : Text → Result Hints
  pub sink : Text → Result (Option UserMappingsOutput)
  pub validator : Text → Result Hints

pub record LabelledSpec : Type 0 where
  pub spec : PipelineSpec
  pub pipeline : Option Text

pub record MappingsProducer : Type 0 where
  pub address : ParamAddress
  pub pipeline : Option Text

pub record ValidationInput : Type 0 where
  pub needed : List Text
  pub derived_elsewhere : List Text

abbrev pub is_nonempty : List Text → Bool
is_nonempty [] = false
is_nonempty (x ∷ xs) = true

unfoldable pub is_derived_elsewhere : ValidationInput → Bool
is_derived_elsewhere given = is_nonempty given.derived_elsewhere

unfoldable pub should_ask_the_user : ValidationInput → Bool
should_ask_the_user given = is_nonempty given.needed && not (is_nonempty given.derived_elsewhere)

-- `a | b` of sets.
unfoldable pub union : List Text → List Text → List Text
union xs [] = xs
union xs (y ∷ ys) = union (if contains xs y then xs else xs ++ y ∷ []) ys

-- `a & b` of sets.
abbrev pub meet : List Text → List Text → List Text
meet xs ys = keep_if (contains ys) xs

unfoldable pub schemas_from_init : Hints → List Text
schemas_from_init [] = []
schemas_from_init ((param, none) ∷ hints) = schemas_from_init hints
schemas_from_init ((param, some schema) ∷ hints) =
    let rest = schemas_from_init hints in
    if param == codes "return" then rest else union (schema ∷ []) rest

-- `schemas |= self._schemas_from_init(lookup(node.name))`
abbrev pub add_schemas : (Text → Result Hints) → List Text → NodeSpec → Result (List Text)
add_schemas look schemas node = do
  hints ← look node.name
  ok (union schemas (schemas_from_init hints))

abbrev pub reject_second_producer : Dict Text MappingsProducer → Text → Result (Unit {0})
reject_second_producer producers schema = elim (lookup schema producers) [
  | none ↦ ok tt
  | some first ↦ err (second_producer schema)
]

-- The loop's body for a sink that declares `output`.
abbrev pub add_declared :
    Option Text
    → Dict Text MappingsProducer
    → NodeSpec
    → Option UserMappingsOutput
    → Result (Dict Text MappingsProducer)
add_declared pipeline producers sink_node none = ok producers
add_declared pipeline producers sink_node (some output) = do
  reject_second_producer producers output.schema
  ok (
      insert output.schema
        record {
          address = record { node = sink_node.name; param = output.path_param };
          pipeline = pipeline;
        }
        producers)

module _ (node_lookups : NodeLookups) where
  unfoldable pub collect_schemas_for_validate : PipelineSpec → Result (List Text)
  collect_schemas_for_validate spec = do
    schemas ← add_schemas node_lookups.source [] spec.source
    fold_result (add_schemas node_lookups.validator) schemas spec.validators

  unfoldable pub collect_schemas_for_translate : PipelineSpec → Result (List Text)
  collect_schemas_for_translate spec = do
    schemas ← collect_schemas_for_validate spec
    fold_result (add_schemas node_lookups.step) schemas spec.steps

  -- The loop's body for one sink: `_collect_producers_in` yields nothing or one producer.
  unfoldable pub add_producer :
      Option Text → Dict Text MappingsProducer → NodeSpec → Result (Dict Text MappingsProducer)
  add_producer pipeline producers sink_node = do
    output ← node_lookups.sink sink_node.name
    add_declared pipeline producers sink_node output

  unfoldable pub fold_produced_mappings : List LabelledSpec → Result (Dict Text MappingsProducer)
  fold_produced_mappings labelled_specs =
      fold_result
        (λ producers labelled.
          fold_result (add_producer labelled.pipeline) producers labelled.spec.sinks)
        [] labelled_specs

  unfoldable pub collect_produced_mappings : PipelineSpec → Result (Dict Text ParamAddress)
  collect_produced_mappings spec = do
    folded ← fold_produced_mappings (record { spec = spec; pipeline = none } ∷ [])
    ok (map (λ (schema, producer). (schema, producer.address)) folded)

  unfoldable pub collect_schemas_produced_by : List PipelineSpec → Result (List Text)
  collect_schemas_produced_by specs =
      fold_result
        (λ schemas spec. collect_produced_mappings spec >>= λ p. ok (union schemas (keys p))) []
        specs

  unfoldable pub choose_validation_input : PipelineSpec → List PipelineSpec → Result ValidationInput
  choose_validation_input spec mapping_specs = do
    needed ← collect_schemas_for_validate spec
    produced ← collect_schemas_produced_by mapping_specs
    ok (record { needed = needed; derived_elsewhere = meet needed produced })

module _ {F U : Type 0} (validate_as : Text → F → Result U) where
  -- The loop's body for one schema.
  abbrev pub load_file : Text → Option F → Dict Text U → Result (Dict Text U)
  load_file schema none result = err (missing_mappings schema)
  load_file schema (some file) result = do
    value ← validate_as schema file
    ok (insert schema value result)

  unfoldable pub load_mappings : List Text → Dict Text F → Result (Dict Text U)
  load_mappings schemas files =
      fold_result (λ result schema. load_file schema (lookup schema files) result) [] schemas

  unfoldable pub load_by_schema : NodeLookups → PipelineSpec → Dict Text F → Result (Dict Text U)
  load_by_schema node_lookups spec files = do
    schemas ← collect_schemas_for_translate node_lookups spec
    load_mappings schemas files

  -- One file, for every schema.
  unfoldable pub load_for_validation : NodeLookups → PipelineSpec → Option F → Result (Dict Text U)
  load_for_validation node_lookups spec file = do
    schemas ← collect_schemas_for_validate node_lookups spec
    load_mappings schemas (elim file [ none ↦ [] | some f ↦ map (λ schema. (schema, f)) schemas ])
