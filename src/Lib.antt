-- ===== src/Lib.antt =====
-- A model of interop, the library and command line that translates energy models between frameworks
-- (PLEXOS, Sienna, PyPSA, OSeMOSYS), and of what its core promises to the plugins that do the
-- translating.
--
-- A run goes through these parts. A manifest names a pipeline, or composes several as legs of a
-- chain. The planner loads the legs, decides which hand-off directory each leg reads and writes,
-- checks the rules of a chain, lays the overrides of the run over the legs, and replaces references
-- such as `$leg.node.param` by the values that they lead to. The runner then loads a leg's source
-- in a staging directory, runs the validators, the steps and the sinks. Its nodes share a state, with
-- a sidecar of extension records beside the frames; what no mapping reads of the sidecar is reported
-- as dropped. User mappings files, given or derived by a mapping pipeline, are routed by schema.
--
-- The files, and the code that each is about:
--   Prelude (Tests, Lists, Text, Dict): shared notation. A text is a list of character codes, a dict
--     is an association list in insertion order.
--   Errors: the exceptions of the core as values, with the data of
--     interop/ports/outbound/validation.py. A message is not modelled, but the things that it names are.
--   Spec: the manifests of interop/core/runner.py and interop/core/composition/document.py, and
--     interop/ports/inbound/overrides.py. `Value` is what YAML yields.
--   CliOverrides (Effect, Phases): interop/core/cli_overrides.py, `apply_overrides`.
--   Composition/Addressing (Syntax, Access, LegParams): interop/core/composition/addressing.py.
--     `rewrite` and `with_param` are `_rewrite` in `set_param`.
--   Composition/Legs, Routing, References, Rules, Planning, each with its proofs below it:
--     interop/core/composition/planning.py. A function of the code has its name here without the
--     underscore; `route_from` and `route_leg` are the loop of `_route_handoffs`, `for_pending` a
--     loop over `_pending_references`, `split_kinds` is `_split`.
--   Reporting (Scopes): interop/ports/outbound/reporting.py and interop/core/reporting.py. The log
--     belongs to the run; a recorder says what an append does to it.
--   Extensions (Kinds, Accounting, Drops, Documents): interop/core/extensions.py. A record of any
--     kind is its name and its attributes; `consume` is the update of a shared set of names.
--   Pipeline (Sidecar): interop/core/pipeline.py.
--   Runner (Validation, Calls, Translating, Runs): interop/core/runner.py, with
--     `StagedSource.load` of interop/core/pipeline.py as `with_source`. A world carries the event
--     log and the calls so far: `staged`, `validated`, `reported`, `stepped`, `wrote`, `unstaged`.
--     `translate_state`, `check_and_translate` and `write_out` are parts of `run_pipeline`.
--   UserMappings (Producers, Loading): interop/core/user_mappings.py and
--     interop/core/user_mappings_loader.py.
--   Listing (Names): the lookup and the listing of manifests in interop/core/runner.py, over what the
--     directories hold.
--   Extensions/Models (Records, Stated, Companions): the models of the kinds in
--     interop/core/extensions.py, what their dump states, and the companion files.
--   Documents (Loading, Needs): interop/core/composition/document.py, with
--     interop/core/use_cases/pipeline_catalog.py (`needs_user_mappings`, `promptable_steps`) and
--     interop/core/use_cases/validate.py (`prepare_validation`, `validate_pipeline`).
--   Translate (Filesystems, Files): interop/core/use_cases/translate.py. `run_plan`, `run_legs` and
--     `run_leg` are `_run_plan` and `_run_leg`; `choose_files` is the choice of `_load_user_mappings`.
--   Discovery (Slots, Locations, Contract, Claims, Refinement, Heirs, Inheritance, Scanning, Walks, Asked,
--     Order, Resolving):
--     interop/di/discovery.py. The registry and its registrations stand in Discovery itself, the walks in
--     Scanning; `place_node`, `place_adapter` and `place_launcher` are the assignments that end a
--     registration. Contract states what a registry promises.
--   TzFormat (Levels, Reference, Entries, Reading, Totality, RegionPairs, Mirror):
--     interop/plugins/shared/osemosys_canonical/tz_values.py. TzFormat/Fields (Table) is tz_fields.py
--     beside it, and TzFormat/Document (Members, Stated) is tz_document.py.
--   InteractiveCli (History, Newest, Prompts, Paths): interop/adapters/inbound/interactive_cli/history.py
--     and interop/adapters/inbound/interactive_cli/schema_prompts.py.
--   PlexosUnits (Tables, Conversions): interop/plugins/shared/plexos_units.py. A number is of any type
--     with the operations of `Numbers`; `note_unreadable` and `factor_between` are `_factor`.
--   Examples: a chain of three pipelines, a run, a sidecar and a mapping pipeline, on which the
--     definitions compute.
--
-- What is a parameter: the loader of a leg's manifest (`load_spec`), the factories of the nodes and
-- the nodes themselves, the validation of params by a pydantic schema, the frames of polars (a type),
-- the callback that renders findings, what the directories of manifests hold, the raw YAML of a
-- manifest and its two models, the text of a location, the type hints of a node's class, and the
-- reading and validation of one user mappings file; for discovery, what a package lists, the syntax
-- tree of a module and what an import yields; for the TZ format, the validation of an object; for the
-- prompts, the disk and the user; JSON's reading and writing of a history; and the arithmetic of
-- floats. A node may answer anything, and may fail with any error.
--
-- Bounds: a position, an index and a count are natural numbers, as Python's integers are where they
-- count; the indices of overrides are integers. The decimal text of a number runs on fuel, which
-- is the number itself: each digit divides it by ten, so that is enough. Every other definition is
-- recursive on a list, or on a tree such as the modules of a package or a value of the TZ format.
--
-- A frozenset is a list in some order, so where several schemas are missing at once, which of them an
-- error names follows that order. An exception that is no `Exception` (a keyboard interrupt) is not
-- modelled.
--
-- What is not modelled: the plugins (sources, steps, sinks, validators and the translations that they
-- share), which work on frames and files, but for the reading of the TZ format and of units; the menus
-- of the command line and the adapters; the use cases that compare and solve; the list of writes and
-- the reports of a translation; how a plugin's file is run; the JSON text of a sidecar, the
-- error for a record staged under another kind's name, and the companion series; the lints.
pub mod Prelude
pub mod Errors
pub mod Spec
pub mod CliOverrides
pub mod Composition
pub mod Reporting
pub mod Extensions
pub mod Pipeline
pub mod Runner
pub mod UserMappings
pub mod Discovery
pub mod Documents
pub mod Listing
pub mod Translate
pub mod TzFormat
pub mod InteractiveCli
pub mod PlexosUnits
mod Examples
