-- ===== src/Extensions/Accounting.antt =====
-- Each record of a sidecar is either read by some mapping of the hop or reported as dropped.
use tz_oss_interop.Prelude.{
  ◌≡◌, refl, sym, ◌∙◌, ap, Bool, ◌&&◌, ◌||◌, List, [], ◌∷◌, ◌++◌, append-nil, append_assoc, arith,
  ◌==◌, if◌then◌else◌, contains, any, Eq,
}
use tz_oss_interop.Prelude.Text.{Text, text_eq, text_beq_iff}
use tz_oss_interop.Prelude.Dict.{Dict, insert, keys, lookup-insert}
use tz_oss_interop.Reporting.{
  TranslationEvent, EventRecorder, event_log, discarding_recorder, scoped_recorder, tag,
  append_event,
}
use tz_oss_interop.Extensions.{
  ExtensionRecord, StagedExtensions, records_of, ExtensionConsumption, names_of, consume, by_name,
  get, read_all, read, record_names, relay, dropped_event, report_records,
}
use tz_oss_interop.Extensions.Kinds.{ExtensionKind, kind_eq, kind_beq_iff}

module _ {ℓ} {A : Type ℓ} ⦃e : Eq A⦄ where
  contains-append :
      (xs ys : List A) (a : A) → contains (xs ++ ys) a ≡ (contains xs a || contains ys a)
  contains-append [] ys a = refl
  contains-append (x ∷ xs) ys a = ground (arith, contains-append xs ys a)

-- What a mapping does with the reader.
pub data ReaderCall : Type 0 where
  get_one : (kind : ExtensionKind) (name : Text) → ReaderCall
  get_all : (kind : ExtensionKind) → ReaderCall
  pass_on : (kind : ExtensionKind) → ReaderCall

unfoldable pub make_call :
    StagedExtensions → ReaderCall → ExtensionConsumption → ExtensionConsumption
make_call staged (get_one kind name) c =
    let (found, c') = read staged kind c in (get found name c').1
make_call staged (get_all kind) c = let (found, c') = read staged kind c in (read_all found c').1
make_call staged (pass_on kind) c = (relay staged kind c).1

unfoldable pub make_calls :
    StagedExtensions → List ReaderCall → ExtensionConsumption → ExtensionConsumption
make_calls staged [] c = c
make_calls staged (call ∷ calls) c = make_calls staged calls (make_call staged call c)

-- Whether a call asks for the name of a kind.
abbrev pub asks_for : StagedExtensions → ExtensionKind → Text → ReaderCall → Bool
asks_for staged kind name (get_one k n) = k == kind && n == name
asks_for staged kind name (get_all k) =
    k == kind && contains (record_names (records_of k staged)) name
asks_for staged kind name (pass_on k) =
    k == kind && contains (record_names (records_of k staged)) name

names_of-consume :
    (kind k : ExtensionKind) (names : List Text) (c : ExtensionConsumption)
    → names_of kind (consume k names c)
      ≡ (if k == kind then names ++ names_of k c else names_of kind c)
unfolding consume
names_of-consume kind k names c =
    ground (arith, lookup-insert k kind (names ++ names_of k c) c.by_kind)

contains-consume :
    (kind k : ExtensionKind) (name : Text) (names : List Text) (c : ExtensionConsumption)
    → contains (names_of kind (consume k names c)) name
      ≡ ((k == kind && contains names name) || contains (names_of kind c) name)
contains-consume kind k name names c =
    ap (λ ns. contains ns name) (names_of-consume kind k names c)
    ∙ ground (arith, contains-append names (names_of k c) name, kind_beq_iff k kind)

contains-keys-insert :
    (n name : Text) (r : ExtensionRecord) (d : Dict Text ExtensionRecord)
    → contains (keys (insert n r d)) name ≡ (n == name || contains (keys d) name)
unfolding insert
contains-keys-insert n name r [] = refl
contains-keys-insert n name r ((m, s) ∷ d) = ground (
  arith,
  contains-keys-insert n name r d,
  text_beq_iff m n,
  text_beq_iff m name,
  text_beq_iff n name,
)

contains-keys-by_name :
    (records : List ExtensionRecord) (d : Dict Text ExtensionRecord) (name : Text)
    → contains (keys (by_name d records)) name
      ≡ (contains (record_names records) name || contains (keys d) name)
unfolding by_name
contains-keys-by_name [] d name = refl
contains-keys-by_name (r ∷ records) d name = ground (
  arith,
  contains-keys-by_name records (insert r.name r d) name,
  contains-keys-insert r.name name r d,
)

contains-make_call :
    (staged : StagedExtensions) (call : ReaderCall) (c : ExtensionConsumption)
    (kind : ExtensionKind) (name : Text)
    → contains (names_of kind (make_call staged call c)) name
      ≡ (asks_for staged kind name call || contains (names_of kind c) name)
unfolding make_call read get read_all relay
contains-make_call staged (get_one k n) c kind name = ground (
  arith,
  contains-consume kind k name (n ∷ []) (consume k [] c),
  contains-consume kind k name [] c,
)
contains-make_call staged (get_all k) c kind name = ground (
  arith,
  contains-consume kind k name (keys (by_name [] (records_of k staged))) (consume k [] c),
  contains-consume kind k name [] c,
  contains-keys-by_name (records_of k staged) [] name,
)
contains-make_call staged (pass_on k) c kind name =
    contains-consume kind k name (record_names (records_of k staged)) c

-- The names that count as read after some calls are those that a call asked for, and those that
-- counted as read before.
pub contains-make_calls :
    (staged : StagedExtensions) (calls : List ReaderCall) (c : ExtensionConsumption)
    (kind : ExtensionKind) (name : Text)
    → contains (names_of kind (make_calls staged calls c)) name
      ≡ (any (asks_for staged kind name) calls || contains (names_of kind c) name)
unfolding make_calls
contains-make_calls staged [] c kind name = refl
contains-make_calls staged (call ∷ calls) c kind name = ground (
  arith,
  contains-make_calls staged calls (make_call staged call c) kind name,
  contains-make_call staged call c kind name,
)

-- What a recorder leaves of one event.
pub stamped : EventRecorder → TranslationEvent → List TranslationEvent
stamped event_log event = event ∷ []
stamped discarding_recorder event = []
stamped (scoped_recorder inner step pipeline) event = stamped inner (tag step pipeline event)

append_event-stamped :
    (recorder : EventRecorder) (event : TranslationEvent) (events : List TranslationEvent)
    → append_event recorder event events ≡ events ++ stamped recorder event
unfolding append_event stamped
append_event-stamped event_log event events = refl
append_event-stamped discarding_recorder event events = sym (append-nil events)
append_event-stamped (scoped_recorder inner step pipeline) event events =
    append_event-stamped inner (tag step pipeline event) events

-- The report of the records of one kind, in their order.
abbrev pub drops :
    Text → EventRecorder → ExtensionKind → List ExtensionRecord → List TranslationEvent
drops framework recorder kind [] = []
drops framework recorder kind (r ∷ records) =
    stamped recorder (dropped_event framework kind r) ++ drops framework recorder kind records

pub report_records-drops :
    (framework : Text) (recorder : EventRecorder) (kind : ExtensionKind)
    (records : List ExtensionRecord) (events : List TranslationEvent)
    → report_records framework recorder kind records events
      ≡ events ++ drops framework recorder kind records
unfolding report_records
report_records-drops framework recorder kind [] events = sym (append-nil events)
report_records-drops framework recorder kind (r ∷ records) events =
    ap (report_records framework recorder kind records)
      (append_event-stamped recorder (dropped_event framework kind r) events)
    ∙ report_records-drops framework recorder kind records
        (events ++ stamped recorder (dropped_event framework kind r))
    ∙ append_assoc events (stamped recorder (dropped_event framework kind r))
        (drops framework recorder kind records)
