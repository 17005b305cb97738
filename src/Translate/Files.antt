-- ===== src/Translate/Files.antt =====
-- Which mappings file a leg reads for a schema: a derived one wins over the user's own.
use tz_oss_interop.Prelude.{
  ◌≡◌, sym, ◌∙◌, ap, none, some, List, [], ◌∷◌, arith, contains, if◌then◌else◌, inl, inr,
  Option-cases,
}
use tz_oss_interop.Prelude.Text.{Text, text_eq}
use tz_oss_interop.Prelude.Dict.{Dict, lookup, insert, or_else, lookup-insert}
use tz_oss_interop.Errors.{ok, >>=-eq-ok, ok_injective}
use tz_oss_interop.Spec.{PipelineSpec}
use tz_oss_interop.UserMappings.{NodeLookups, collect_schemas_for_translate}
use tz_oss_interop.Translate.{MappingsFile, configured, TranslationRun, set_defaults, choose_files}

lookup-set_defaults :
    (own : MappingsFile) (schemas : List Text) (files : Dict Text MappingsFile) (schema : Text)
    → lookup schema (set_defaults own schemas files)
      ≡ or_else (lookup schema files) (if contains schemas schema then some own else none)
unfolding set_defaults
lookup-set_defaults own [] files schema = ground arith
lookup-set_defaults own (first ∷ schemas) files schema = elim (Option-cases (lookup first files)) [
  | inl absent ↦
      rw (absent, set_defaults)
        (lookup-set_defaults own schemas (insert first own files) schema
          ∙ ground (arith, lookup-insert first schema own files, text_eq.agrees first schema))
  | inr (file, found) ↦
      rw (found, set_defaults)
        (lookup-set_defaults own schemas files schema ∙ ground (arith, text_eq.agrees first schema))
]

-- With a user's own file at a path, the file of a schema is the one that a leg of the run derived if
-- there is one, otherwise the user's own, from the configured filesystem, if the nodes of the
-- pipeline need the schema, and otherwise none.
pub lookup-choose_files :
    (node_lookups : NodeLookups) (spec : PipelineSpec) (run : TranslationRun) (path : Text)
    (files : Dict Text MappingsFile)
    → run.user_mappings_path ≡ some path
    → choose_files node_lookups spec run ≡ ok files
    → (schemas : List Text) × (collect_schemas_for_translate node_lookups spec ≡ ok schemas)
      × ((schema : Text)
          → lookup schema files
            ≡ or_else (lookup schema run.mappings) (
                if contains schemas schema
                then some (record { location = path; filesystem = configured })
                else none))
unfolding choose_files
lookup-choose_files node_lookups spec run path files h chosen =
    let own : MappingsFile = record { location = path; filesystem = configured } in
    let (schemas, collected, made) =
      >>=-eq-ok (collect_schemas_for_translate node_lookups spec)
        (λ schemas. ok (set_defaults own schemas run.mappings)) (rw h at chosen) in
    (
      schemas,
      collected,
      λ schema.
          ap (lookup schema) (sym (ok_injective made))
          ∙ lookup-set_defaults own schemas run.mappings schema,
    )
