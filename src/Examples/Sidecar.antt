-- ===== src/Examples/Sidecar.antt =====
-- A sidecar of three records and the calls of a hop's mappings, and the theorems at them.
use tz_oss_interop.Prelude.{◌≡◌, List, [], ◌∷◌, ◌++◌}
use tz_oss_interop.Prelude.Text.{text_eq, codes}
use tz_oss_interop.Prelude.Dict.{lookup}
use tz_oss_interop.Reporting.{TranslationEvent, event_log}
use tz_oss_interop.Extensions.{StagedExtensions, report_unconsumed, dropped_event, blank}
use tz_oss_interop.Extensions.Kinds.{kind_eq, bus, generator}
use tz_oss_interop.Extensions.Accounting.{ReaderCall, get_one, pass_on, make_calls}
use tz_oss_interop.Extensions.Drops.{unopened, is_unasked, drops_where, report_unconsumed_lem}
use tz_oss_interop.Extensions.Documents.{
  Document, stated, stage_extensions, build_extensions, lookup-stage_extensions,
  build_extensions-stage_extensions,
}

abbrev document : Document
document bus = blank (codes "b1") ∷ blank (codes "b2") ∷ []
document generator = blank (codes "g") ∷ []
document _ = []

abbrev sidecar : StagedExtensions
sidecar =
    (bus, blank (codes "b1") ∷ blank (codes "b2") ∷ []) ∷ (generator, blank (codes "g") ∷ []) ∷ []

abbrev calls : List ReaderCall
calls = get_one bus (codes "b2") ∷ pass_on generator ∷ []

report_unconsumed_lem_example :
    report_unconsumed (make_calls sidecar calls (unopened event_log)) sidecar (codes "sienna") []
    ≡ [] ++ drops_where (codes "sienna") event_log (is_unasked sidecar calls) sidecar
report_unconsumed_lem_example = report_unconsumed_lem sidecar calls event_log (codes "sienna") []

lookup-stage_extensions_example : lookup bus (stage_extensions document) ≡ stated (document bus)
lookup-stage_extensions_example = lookup-stage_extensions document bus

build_extensions-stage_extensions_example :
    build_extensions (stage_extensions document) bus ≡ document bus
build_extensions-stage_extensions_example = build_extensions-stage_extensions document bus

abbrev event : TranslationEvent
event = dropped_event (codes "sienna") bus (blank (codes "b1"))
