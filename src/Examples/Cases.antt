-- ===== src/Examples/Cases.antt =====
-- The documents, the filesystems of a run and the manifests on disk, and the theorems at them.
use tz_oss_interop.Prelude.{
  ◌≡◌, refl, false, none, some, List, [], ◌∷◌, if◌then◌else◌, contains, ◌==◌,
}
use tz_oss_interop.Prelude.Text.{Text, text_eq, text_beq, codes}
use tz_oss_interop.Prelude.Dict.{Dict, lookup, insert, or_else}
use tz_oss_interop.Errors.{Result, ok, err, raised}
use tz_oss_interop.Spec.{Value, text, PipelineSpec, ComposedPipelineSpec}
use tz_oss_interop.Composition.Legs.{in_run_order}
use tz_oss_interop.UserMappings.{
  NodeLookups, union, schemas_from_init, collect_schemas_for_validate,
  collect_schemas_for_translate, add_producer, fold_produced_mappings, collect_produced_mappings,
}
use tz_oss_interop.Documents.{needs_from, needs_user_mappings}
use tz_oss_interop.Prelude.{any, ◌&&◌}
use tz_oss_interop.Listing.{ManifestFile, is_listed, translation_stems}
use tz_oss_interop.Listing.Names.{IsSorted, translation_stems-IsSorted}
use tz_oss_interop.Documents.Needs.{AreCovered, needs_user_mappings-AreCovered}
use tz_oss_interop.Translate.{
  configured, Interiors, filesystem_for, MappingsFile, TranslationRun, set_defaults, choose_files,
}
use tz_oss_interop.Translate.Filesystems.{IsConsistent, filesystem_for-IsConsistent}
use tz_oss_interop.Translate.Files.{lookup-choose_files}
use tz_oss_interop.Examples.Manifests.{to_sienna, plan}

abbrev read_document : Text → Result Value
read_document name = ok (text name)

abbrev as_composed : Value → Result ComposedPipelineSpec
as_composed value = err (raised 1)

abbrev as_single : Value → Result PipelineSpec
as_single value = ok to_sienna

-- The step `map` needs the schema that the sink `save` of the mapping pipeline writes.
abbrev node_lookups : NodeLookups
node_lookups = record {
  source = λ name. ok [];
  step = λ name. ok ((codes "regions", some (codes "Regions")) ∷ []);
  sink = λ name.
      if name == codes "save"
      then ok (some (record { schema = codes "Regions"; path_param = codes "out" }))
      else ok none;
  validator = λ name. ok [];
}

needs_no_file : needs_user_mappings node_lookups plan ≡ ok false
unfolding text_beq lookup insert union schemas_from_init collect_schemas_for_validate
    collect_schemas_for_translate add_producer fold_produced_mappings collect_produced_mappings
    needs_from needs_user_mappings
needs_no_file = refl

needs_user_mappings-AreCovered_example : AreCovered node_lookups (in_run_order plan) []
needs_user_mappings-AreCovered_example =
    needs_user_mappings-AreCovered node_lookups plan needs_no_file

none_made-IsConsistent : IsConsistent []
unfolding lookup
none_made-IsConsistent = record {
  numbered = λ d f h. absurd (cc h);
  separate = λ a b f h k. absurd (cc h);
}

abbrev one_made : Interiors
one_made = (filesystem_for (some (codes "0-p2s")) []).1

filesystem_for-IsConsistent_example :
    IsConsistent one_made
    × ((filesystem_for (some (codes "0-p2s")) (filesystem_for none one_made).1).0
        ≡ (filesystem_for (some (codes "0-p2s")) []).0)
    × ((filesystem_for none one_made).0 ≡ (filesystem_for (some (codes "0-p2s")) []).0
        → some (codes "0-p2s") ≡ none)
filesystem_for-IsConsistent_example =
    filesystem_for-IsConsistent (some (codes "0-p2s")) none [] none_made-IsConsistent

abbrev run : TranslationRun
run = record {
  user_mappings_path = some (codes "mine.yaml");
  keep_staging = false;
  errors = [];
  mappings = [];
  producers = [];
  interiors = [];
  world = record { events = []; calls = [] };
}

abbrev files : Dict Text MappingsFile
files = (codes "Regions", record { location = codes "mine.yaml"; filesystem = configured }) ∷ []

chosen_files : choose_files node_lookups to_sienna run ≡ ok files
unfolding text_beq lookup insert union schemas_from_init collect_schemas_for_validate
    collect_schemas_for_translate set_defaults choose_files
chosen_files = refl

lookup-choose_files_example :
    (schemas : List Text) × (collect_schemas_for_translate node_lookups to_sienna ≡ ok schemas)
    × ((schema : Text)
        → lookup schema files
          ≡ or_else (lookup schema run.mappings) (
              if contains schemas schema
              then some (record { location = codes "mine.yaml"; filesystem = configured })
              else none))
lookup-choose_files_example =
    lookup-choose_files node_lookups to_sienna run (codes "mine.yaml") files refl chosen_files

abbrev on_disk : List (List ManifestFile)
on_disk =
    (record { parts = codes "p2s.yaml" ∷ []; stem = codes "p2s" }
      ∷ record { parts = codes "archive" ∷ codes "old.yaml" ∷ []; stem = codes "old" }
      ∷ [])
    ∷ []

translation_stems-IsSorted_example :
    IsSorted (translation_stems on_disk)
    × (contains (translation_stems on_disk) (codes "old")
        ≡ any (any (λ file. is_listed file && file.stem == codes "old")) on_disk)
translation_stems-IsSorted_example = translation_stems-IsSorted on_disk (codes "old")
