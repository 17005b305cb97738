-- ===== src/Translate.antt =====
-- interop/core/use_cases/translate.py: the filesystems of a run, the mappings files that its legs
-- derive, and the legs run in order. A filesystem is the configured one or the interior one of a
-- number; the nodes of a leg, the reading of a mappings file and the text of a location are
-- arguments.
pub mod Filesystems
pub mod Files
use tz_oss_interop.Prelude.{
  ℕ, ◌+◌, Bool, true, false, Option, none, some, List, [], ◌∷◌, ◌++◌, map, if◌then◌else◌, length,
  contains,
}
use tz_oss_interop.Prelude.Text.{Text, text_eq}
use tz_oss_interop.Prelude.Dict.{Dict, lookup, insert, update, or_else}
use tz_oss_interop.Errors.{
  Result, ok, err, ◌>>=◌, ◌>>◌, EnergyModelValidationError, framework_mismatch,
}
use tz_oss_interop.Prelude.{◌==◌, ◌&&◌}
use tz_oss_interop.Spec.{Value, PipelineSpec, PipelineDocument, single, composed}
use tz_oss_interop.Reporting.{EventRecorder, event_log, scoped_recorder}
use tz_oss_interop.Composition.Addressing.{read_param}
use tz_oss_interop.Composition.Legs.{PlannedLeg, TranslationPlan, in_run_order}
use tz_oss_interop.Runner.{World, Factories, run_pipeline, continue_with}
use tz_oss_interop.UserMappings.{
  NodeLookups, LabelledSpec, MappingsProducer, fold_produced_mappings,
  collect_schemas_for_translate, load_by_schema,
}

pub data Filesystem : Type 0 where
  configured : Filesystem
  interior : (number : ℕ) → Filesystem

-- The interior filesystems that `filesystem_for` has made, by hand-off directory. The scratch root
-- exists exactly where there is one.
abbrev pub Interiors : Type 0
Interiors = Dict Text Filesystem

-- `_Run.filesystem_for`: a new filesystem is numbered by those before it.
unfoldable pub filesystem_for : Option Text → Interiors → Filesystem × Interiors
filesystem_for none made = (configured, made)
filesystem_for (some directory) made = elim (lookup directory made) [
  | some filesystem ↦ (filesystem, made)
  | none ↦ (interior (length made), insert directory (interior (length made)) made)
]

pub record MappingsFile : Type 0 where
  pub location : Text
  pub filesystem : Filesystem

-- `_Run`
pub record TranslationRun : Type 0 where
  pub user_mappings_path : Option Text
  pub keep_staging : Bool
  pub errors : List EnergyModelValidationError
  pub mappings : Dict Text MappingsFile
  pub producers : Dict Text MappingsProducer
  pub interiors : Interiors
  pub world : World

-- `_Run.recorder_for`
abbrev pub recorder_for : PlannedLeg → EventRecorder
recorder_for leg = scoped_recorder event_log none (some leg.pipeline)

-- `for schema in schemas: files.setdefault(schema, own)`
unfoldable pub set_defaults :
    MappingsFile → List Text → Dict Text MappingsFile → Dict Text MappingsFile
set_defaults own [] files = files
set_defaults own (schema ∷ schemas) files =
    set_defaults own schemas
      (elim (lookup schema files) [ some file ↦ files | none ↦ insert schema own files ])

-- The files of `_load_user_mappings`.
unfoldable pub choose_files :
    NodeLookups → PipelineSpec → TranslationRun → Result (Dict Text MappingsFile)
choose_files node_lookups spec run = elim run.user_mappings_path [
  | none ↦ ok run.mappings
  | some path ↦ collect_schemas_for_translate node_lookups spec >>= λ schemas.
      ok (set_defaults (record { location = path; filesystem = configured }) schemas run.mappings)
]

-- Whether a producer is a sink of the leg.
abbrev pub is_producer_of : PlannedLeg → MappingsProducer → Bool
is_producer_of leg producer = elim producer.pipeline [
  | none ↦ false
  | some pipeline ↦ pipeline == leg.pipeline
]

module _ (to_location : Value → Result Text) where
  -- The file that a producer of the leg wrote.
  abbrev pub derived_file :
      PlannedLeg → Filesystem → Text → MappingsProducer → Result (Text × MappingsFile)
  derived_file leg filesystem schema producer = do
    value ← read_param leg.pipeline leg.spec producer.address
    location ← to_location value
    ok (schema, record { location = location; filesystem = filesystem })

  -- The comprehension of `_derived_mappings`.
  unfoldable pub derive_from :
      PlannedLeg → Filesystem → Dict Text MappingsProducer → Result (Dict Text MappingsFile)
  derive_from leg filesystem [] = ok []
  derive_from leg filesystem ((schema, producer) ∷ producers) =
      let rest = derive_from leg filesystem producers in
      if is_producer_of leg producer
      then (derived_file leg filesystem schema producer >>= λ entry.
          rest >>= λ files. ok (entry ∷ files))
      else rest

  -- `run.mappings.update(self._derived_mappings(leg, run))`
  unfoldable pub add_derived : PlannedLeg → TranslationRun → Result (Unit {0}) × TranslationRun
  add_derived leg run =
      let (filesystem, made) = filesystem_for leg.writes_handoff_to run.interiors in
      let run' = record run { interiors = made } in
      elim (derive_from leg filesystem run.producers) [
        | err e ↦ (err e, run')
        | ok files ↦ (ok tt, record run' { mappings = update run.mappings files })
      ]

-- `factories` builds the nodes of a leg from its recorder, the loaded mappings and the filesystems
-- that it reads from and writes to.
module _ {B M U : Type 0}
    (factories : EventRecorder → Dict Text U → (reads writes : Filesystem) → Factories B M)
    (node_lookups : NodeLookups) (validate_as : Text → MappingsFile → Result U)
    (to_location : Value → Result Text)
    (render : List EnergyModelValidationError → Result (Unit {0})) where
  -- `_run_leg`
  unfoldable pub run_leg :
      PlannedLeg → TranslationRun → Result (List EnergyModelValidationError) × TranslationRun
  run_leg leg run =
      elim (do
        files ← choose_files node_lookups leg.spec run
        load_by_schema validate_as node_lookups leg.spec files) [
          | err e ↦ (err e, run)
          | ok mappings ↦
              let (reads, made) = filesystem_for leg.reads_handoff_from run.interiors in
              let (writes, made') = filesystem_for leg.writes_handoff_to made in
              let (found, world) =
                run_pipeline (factories (recorder_for leg) mappings reads writes) leg.spec
                  run.keep_staging (some (λ findings. render (run.errors ++ findings))) run.world in
              (found, record run { interiors = made'; world = world })
        ]

  -- The loop of `_run_plan`.
  unfoldable pub run_legs : List PlannedLeg → TranslationRun → Result (Unit {0}) × TranslationRun
  run_legs [] run = (ok tt, run)
  run_legs (leg ∷ legs) run =
      let (found, run') = run_leg leg run in
      elim found [
        | err e ↦ (err e, run')
        | ok findings ↦
            let (derived, run'') =
              add_derived to_location leg (record run' { errors = run'.errors ++ findings }) in
            elim derived [ err e ↦ (err e, run'') | ok _ ↦ run_legs legs run'' ]
      ]

  -- `_run_plan`
  unfoldable pub run_plan : TranslationPlan → TranslationRun → Result (Unit {0}) × TranslationRun
  run_plan plan run =
      let labelled =
        map {A = PlannedLeg} {B = LabelledSpec}
          (λ leg. record { spec = leg.spec; pipeline = some leg.pipeline }) (in_run_order plan) in
      elim (fold_produced_mappings node_lookups labelled) [
        | err e ↦ (err e, run)
        | ok producers ↦ run_legs (in_run_order plan) (record run { producers = producers })
      ]
