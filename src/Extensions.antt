-- ===== src/Extensions.antt =====
-- interop/core/extensions.py: the sidecar records of a hop, and what its mappings read of them. A
-- record of any of the models is its name and its attributes by name.
pub mod Kinds
pub mod Accounting
pub mod Drops
pub mod Documents
pub mod Models
use tz_oss_interop.Prelude.{
  Bool, true, false, not, Option, none, some, List, [], ◌∷◌, ◌++◌, map, ◌==◌, if◌then◌else◌,
  keep_if, contains,
}
use tz_oss_interop.Prelude.Text.{Text, text_eq, codes}
use tz_oss_interop.Prelude.Dict.{Dict, lookup, insert, keys}
use tz_oss_interop.Spec.{Value, Params}
use tz_oss_interop.Reporting.{
  not_mapped, SourceField, TranslationEvent, EventRecorder, append_event,
}
use Kinds.{ExtensionKind, kind_eq, kind_name, kinds}

pub record ExtensionRecord : Type 0 where
  pub name : Text
  pub attributes : Params

abbrev pub StagedExtensions : Type 0
StagedExtensions = Dict ExtensionKind (List ExtensionRecord)

-- `staged.get(kind, [])`
abbrev pub records_of : ExtensionKind → StagedExtensions → List ExtensionRecord
records_of kind staged = elim (lookup kind staged) [ none ↦ [] | some records ↦ records ]

-- `staged.setdefault(kind, []).extend(records)`
unfoldable pub append_extensions :
    StagedExtensions → ExtensionKind → List ExtensionRecord → StagedExtensions
append_extensions staged kind records = insert kind (records_of kind staged ++ records) staged

-- `next((record for record in records if record.name == name), None)`
unfoldable pub first_named : Text → List ExtensionRecord → Option ExtensionRecord
first_named name [] = none
first_named name (r ∷ records) = if r.name == name then some r else first_named name records

unfoldable pub record_for : StagedExtensions → ExtensionKind → Text → Option ExtensionRecord
unfolding first_named
record_for staged kind name = first_named name (records_of kind staged)

-- `ExtensionConsumption`: the names that were read, by kind, and the recorder of the drops.
pub record ExtensionConsumption : Type 0 where
  pub recorder : EventRecorder
  pub by_kind : Dict ExtensionKind (List Text)

-- A set of names, as a list.
abbrev pub names_of : ExtensionKind → ExtensionConsumption → List Text
names_of kind consumption = elim (lookup kind consumption.by_kind) [
  | none ↦ []
  | some names ↦ names
]

-- `names_for(kind).update(names)`: the set is shared, so the update shows in the consumption.
unfoldable pub consume : ExtensionKind → List Text → ExtensionConsumption → ExtensionConsumption
consume kind names consumption = record consumption {
  by_kind = insert kind (names ++ names_of kind consumption) consumption.by_kind;
}

-- `ExtensionLookup`: one kind's records by name.
pub record ExtensionLookup : Type 0 where
  pub kind : ExtensionKind
  pub records : Dict Text ExtensionRecord

-- `{record.name: record for record in records}`, after the entries of `found`.
unfoldable pub by_name :
    Dict Text ExtensionRecord → List ExtensionRecord → Dict Text ExtensionRecord
by_name found [] = found
by_name found (r ∷ records) = by_name (insert r.name r found) records

-- `self._model(name=name)`: a record that states nothing.
abbrev pub blank : Text → ExtensionRecord
blank name = record { name = name; attributes = [] }

-- `ExtensionLookup.get`
unfoldable pub get :
    ExtensionLookup → Text → ExtensionConsumption → ExtensionRecord × ExtensionConsumption
get found name consumption = (
  elim (lookup name found.records) [ none ↦ blank name | some r ↦ r ],
  consume found.kind (name ∷ []) consumption,
)

abbrev pub values {ℓ κ} : {K : Type ℓ} {V : Type κ} → Dict K V → List V
values [] = []
values ((k, v) ∷ d) = v ∷ values d

-- `ExtensionLookup.read_all`
unfoldable pub read_all :
    ExtensionLookup → ExtensionConsumption → List ExtensionRecord × ExtensionConsumption
read_all found consumption =
    (values found.records, consume found.kind (keys found.records) consumption)

-- `ExtensionReader.read`: the kind gets its set of names.
unfoldable pub read :
    StagedExtensions → ExtensionKind → ExtensionConsumption → ExtensionLookup × ExtensionConsumption
read staged kind consumption = (
  record { kind = kind; records = by_name [] (records_of kind staged) },
  consume kind [] consumption,
)

abbrev pub record_names : List ExtensionRecord → List Text
record_names records = map (λ r. r.name) records

-- `ExtensionReader.relay`
unfoldable pub relay :
    StagedExtensions
    → ExtensionKind
    → ExtensionConsumption
    → List ExtensionRecord × ExtensionConsumption
relay staged kind consumption =
    let records = records_of kind staged in
    (records, consume kind (record_names records) consumption)

abbrev pub unconsumed_note : Text
unconsumed_note =
    codes
      "no mapping in this translation reads this extension record, so it is dropped rather than carried into the next sidecar"

abbrev pub dropped_event : Text → ExtensionKind → ExtensionRecord → TranslationEvent
dropped_event framework kind r = record {
  kind = not_mapped;
  sources =
      record {
        framework = framework;
        component = kind_name kind;
        name = r.name;
        attribute = none;
        value = none;
        unit = none;
        stated_unit = none;
      }
      ∷ [];
  destinations = [];
  derivation = none;
  note = some unconsumed_note;
  step = none;
  pipeline = none;
}

-- The inner loop of `report_dropped`.
unfoldable pub report_records :
    Text
    → EventRecorder
    → ExtensionKind
    → List ExtensionRecord
    → List TranslationEvent
    → List TranslationEvent
report_records framework recorder kind [] events = events
report_records framework recorder kind (r ∷ records) events =
    report_records framework recorder kind records
      (append_event recorder (dropped_event framework kind r) events)

unfoldable pub report_dropped :
    StagedExtensions → Text → EventRecorder → List TranslationEvent → List TranslationEvent
unfolding report_records
report_dropped [] framework recorder events = events
report_dropped ((kind, records) ∷ staged) framework recorder events =
    report_dropped staged framework recorder (report_records framework recorder kind records events)

abbrev pub is_unread : ExtensionKind → ExtensionConsumption → ExtensionRecord → Bool
is_unread kind consumption r = not (contains (names_of kind consumption) r.name)

-- `ExtensionConsumption.report_unconsumed`
unfoldable pub report_unconsumed :
    ExtensionConsumption → StagedExtensions → Text → List TranslationEvent → List TranslationEvent
unfolding report_dropped
report_unconsumed consumption [] framework events = events
report_unconsumed consumption ((kind, records) ∷ staged) framework events =
    report_unconsumed consumption staged framework (
      report_dropped ((kind, keep_if (is_unread kind consumption) records) ∷ []) framework
        consumption.recorder events)
