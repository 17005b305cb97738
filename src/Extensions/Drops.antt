-- ===== src/Extensions/Drops.antt =====
-- The report at the end of a hop: the records that no mapping asked for.
use mathlib.Core.Path.{fun_ext}
use tz_oss_interop.Prelude.{
  ◌≡◌, refl, sym, ◌∙◌, ap, ap₂, Bool, not, List, [], ◌∷◌, ◌++◌, append-nil, append_assoc, arith,
  keep_if, any,
}
use tz_oss_interop.Prelude.Text.{Text, text_eq}
use tz_oss_interop.Prelude.Dict.{lookup}
use tz_oss_interop.Reporting.{TranslationEvent, EventRecorder}
use tz_oss_interop.Extensions.{
  ExtensionRecord, StagedExtensions, ExtensionConsumption, consume, get, read_all, read, relay,
  is_unread, report_unconsumed,
}
use tz_oss_interop.Extensions.Kinds.{ExtensionKind, kind_eq}
use tz_oss_interop.Extensions.Accounting.{
  ReaderCall, get_one, get_all, pass_on, make_call, make_calls, asks_for, contains-make_calls,
  drops, report_records-drops,
}

-- The drops of those records of a sidecar that a test picks, kind by kind.
abbrev pub drops_where :
    Text
    → EventRecorder
    → (ExtensionKind → ExtensionRecord → Bool)
    → StagedExtensions
    → List TranslationEvent
drops_where framework recorder test [] = []
drops_where framework recorder test ((kind, records) ∷ staged) =
    drops framework recorder kind (keep_if (test kind) records)
    ++ drops_where framework recorder test staged

report_unconsumed-drops_where :
    (c : ExtensionConsumption) (staged : StagedExtensions) (framework : Text)
    (events : List TranslationEvent)
    → report_unconsumed c staged framework events
      ≡ events ++ drops_where framework c.recorder (λ kind. is_unread kind c) staged
unfolding report_unconsumed
report_unconsumed-drops_where c [] framework events = sym (append-nil events)
report_unconsumed-drops_where c ((kind, records) ∷ staged) framework events =
    let unread = keep_if (is_unread kind c) records in
    ap (report_unconsumed c staged framework)
      (report_records-drops framework c.recorder kind unread events)
    ∙ report_unconsumed-drops_where c staged framework
        (events ++ drops framework c.recorder kind unread)
    ∙ append_assoc events (drops framework c.recorder kind unread)
        (drops_where framework c.recorder (λ k. is_unread k c) staged)

-- The consumption that a hop starts with: `ExtensionConsumption(recorder)`.
abbrev pub unopened : EventRecorder → ExtensionConsumption
unopened recorder = record { recorder = recorder; by_kind = [] }

recorder-make_call :
    (staged : StagedExtensions) (call : ReaderCall) (c : ExtensionConsumption)
    → (make_call staged call c).recorder ≡ c.recorder
unfolding make_call read get read_all relay consume
recorder-make_call staged (get_one k n) c = refl
recorder-make_call staged (get_all k) c = refl
recorder-make_call staged (pass_on k) c = refl

recorder-make_calls :
    (staged : StagedExtensions) (calls : List ReaderCall) (c : ExtensionConsumption)
    → (make_calls staged calls c).recorder ≡ c.recorder
unfolding make_calls
recorder-make_calls staged [] c = refl
recorder-make_calls staged (call ∷ calls) c =
    recorder-make_calls staged calls (make_call staged call c) ∙ recorder-make_call staged call c

-- No call of the hop asked for the record.
abbrev pub is_unasked : StagedExtensions → List ReaderCall → ExtensionKind → ExtensionRecord → Bool
is_unasked staged calls kind r = not (any (asks_for staged kind r.name) calls)

is_unread-make_calls :
    (staged : StagedExtensions) (calls : List ReaderCall) (recorder : EventRecorder)
    (kind : ExtensionKind) (r : ExtensionRecord)
    → is_unread kind (make_calls staged calls (unopened recorder)) r
      ≡ is_unasked staged calls kind r
unfolding lookup
is_unread-make_calls staged calls recorder kind r =
    ground (arith, contains-make_calls staged calls (unopened recorder) kind r.name)

-- Whatever the mappings of a hop read, the report after them adds one drop for each staged record
-- that none of their calls asked for, in the order of the sidecar, and no other event.
pub report_unconsumed_lem :
    (staged : StagedExtensions) (calls : List ReaderCall) (recorder : EventRecorder)
    (framework : Text) (events : List TranslationEvent)
    → report_unconsumed (make_calls staged calls (unopened recorder)) staged framework events
      ≡ events ++ drops_where framework recorder (is_unasked staged calls) staged
report_unconsumed_lem staged calls recorder framework events =
    report_unconsumed-drops_where (make_calls staged calls (unopened recorder)) staged framework
      events
    ∙ ap₂ (λ rec test. events ++ drops_where framework rec test staged)
        (recorder-make_calls staged calls (unopened recorder))
        (fun_ext λ kind. fun_ext λ r. is_unread-make_calls staged calls recorder kind r)
