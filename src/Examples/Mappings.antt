-- ===== src/Examples/Mappings.antt =====
-- A mapping pipeline whose sink writes a schema that a translation needs, and the theorems at them.
use tz_oss_interop.Prelude.{
  ◌≡◌, ◌↔◌, ◌⊎◌, refl, true, false, none, some, List, [], ◌∷◌, if◌then◌else◌, ◌==◌, contains, ◌&&◌,
}
use tz_oss_interop.Prelude.Text.{Text, text_eq, text_beq, codes}
use tz_oss_interop.Prelude.Dict.{Dict, lookup, insert, IsDict}
use tz_oss_interop.Errors.{Result, ok}
use tz_oss_interop.UserMappings.{
  NodeLookups, LabelledSpec, MappingsProducer, ValidationInput, is_nonempty, should_ask_the_user,
  union, schemas_from_init, collect_schemas_for_validate, collect_schemas_for_translate,
  add_producer, fold_produced_mappings, collect_produced_mappings, collect_schemas_produced_by,
  choose_validation_input, load_mappings, load_by_schema,
}
use tz_oss_interop.UserMappings.Producers.{DeclaresAll, fold_produced_mappings-DeclaresAll}
use tz_oss_interop.UserMappings.Loading.{
  IsLoadedFrom, load_by_schema_lem, choose_validation_input_lem,
}
use tz_oss_interop.Examples.Manifests.{derive, to_sienna}

-- Each source asks for a `Regions` file, and the sink `save` writes one.
abbrev lookups : NodeLookups
lookups = record {
  source = λ name. ok ((codes "filesystem", none) ∷ (codes "regions", some (codes "Regions")) ∷ []);
  step = λ name. ok [];
  sink = λ name.
      if name == codes "save"
      then ok (some (record { schema = codes "Regions"; path_param = codes "out" }))
      else ok none;
  validator = λ name. ok [];
}

abbrev validate_as : Text → Text → Result Text
validate_as schema file = ok file

abbrev files : Dict Text Text
files = (codes "Regions", codes "regions.yaml") ∷ []

abbrev labelled : List LabelledSpec
labelled = record { spec = derive; pipeline = some (codes "derive") } ∷ []

abbrev producers : Dict Text MappingsProducer
producers =
    (
      codes "Regions",
      record {
        address = record { node = codes "save"; param = codes "out" };
        pipeline = some (codes "derive");
      },
    )
    ∷ []

abbrev input : ValidationInput
input = record { needed = codes "Regions" ∷ []; derived_elsewhere = codes "Regions" ∷ [] }

mapping_run : Unit {0}
unfolding text_beq lookup insert union schemas_from_init collect_schemas_for_validate
    collect_schemas_for_translate add_producer fold_produced_mappings collect_produced_mappings
    collect_schemas_produced_by choose_validation_input load_mappings load_by_schema
mapping_run = tt

produced : fold_produced_mappings lookups labelled ≡ ok producers
unfolding mapping_run
produced = refl

loaded_files : load_by_schema validate_as lookups to_sienna files ≡ ok files
unfolding mapping_run
loaded_files = refl

chosen : choose_validation_input lookups to_sienna (derive ∷ []) ≡ ok input
unfolding mapping_run
chosen = refl

fold_produced_mappings-DeclaresAll_example :
    DeclaresAll lookups labelled producers × IsDict producers
fold_produced_mappings-DeclaresAll_example =
    fold_produced_mappings-DeclaresAll lookups labelled producers produced

load_by_schema_lem_example :
    (schemas : List Text) × (collect_schemas_for_translate lookups to_sienna ≡ ok schemas)
    × ((schema : Text)
        → ((contains schemas schema ≡ true) × IsLoadedFrom validate_as files files schema)
          ⊎ ((contains schemas schema ≡ false) × (lookup schema files ≡ none)))
load_by_schema_lem_example =
    load_by_schema_lem validate_as files lookups to_sienna files loaded_files

choose_validation_input_lem_example :
    (written : List Text) × (collect_schemas_for_validate lookups to_sienna ≡ ok input.needed)
    × (collect_schemas_produced_by lookups (derive ∷ []) ≡ ok written)
    × ((schema : Text)
        → contains input.derived_elsewhere schema
          ≡ (contains input.needed schema && contains written schema))
    × ((should_ask_the_user input ≡ true) ↔ (
        (is_nonempty input.needed ≡ true)
        × ((schema : Text)
            → contains input.needed schema ≡ true
            → contains written schema ≡ false)))
choose_validation_input_lem_example =
    choose_validation_input_lem lookups to_sienna (derive ∷ []) input chosen
