-- ===== src/TzFormat/Document/Stated.antt =====
-- The fields that a document states: each has the row of its owner and name, and can be read.
use tz_oss_interop.Prelude.{
  Bool, true, false, none, some, List, [], ◌∷◌, ◌==◌, ◌≡◌, refl, sym, ap, ap₂, subst, arith, All,
  All-imp, pair_eq, length, Option-cases, Bool-cases, inl, inr, eq_of_==, map, keep_if, not,
}
use tz_oss_interop.Prelude.Text.{Text, text_eq}
use tz_oss_interop.Prelude.Dict.{Dict, lookup, insert, lookup-insert}
use tz_oss_interop.Errors.{ok}
use tz_oss_interop.TzFormat.{TzValue, Sets, list_tz_entries, TzEntry}
use tz_oss_interop.TzFormat.Totality.{HasLength, list_tz_entries-Returns, AreKnown}
use tz_oss_interop.TzFormat.Fields.{TzOwner, owner_eq, TzField}
use tz_oss_interop.TzFormat.Fields.Table.{tz_fields}
use tz_oss_interop.TzFormat.Document.{
  TzObject, StatedField, fields_from, tz_fields_by_key, list_field_values, sort_fields,
  build_stated_fields, build_tz_name,
}
use tz_oss_interop.TzFormat.Document.Members.{document_sets, document_sets-AreKnown}

abbrev Key : Type 0
Key = TzOwner × Text

-- What holds of a key and its row in a table.
abbrev Holds {μ} : (Key → TzField → Type μ) → Dict Key TzField → Type μ
Holds Q table = (k : Key) (f : TzField) → lookup k table ≡ some f → Q k f

insert-Holds {μ} :
    (Q : Key → TzField → Type μ) (key : Key) (field : TzField) (table : Dict Key TzField)
    → Q key field
    → Holds Q table
    → Holds Q (insert key field table)
insert-Holds Q key field table here holds k f found = elim (Bool-cases (key == k)) [
  | inl same ↦
      subst (λ j. Q j f) (eq_of_== key k same)
        (subst (Q key) (ground (arith, lookup-insert key k field table)) here)
  | inr other ↦ holds k f (ground (arith, lookup-insert key k field table))
]

fields_from-Holds {μ} :
    (Q : Key → TzField → Type μ) (fields : List TzField) (table : Dict Key TzField)
    → All (λ f. Q (f.owner, f.field_name) f) fields
    → Holds Q table
    → Holds Q (fields_from fields table)
fields_from-Holds Q [] table each holds = holds
fields_from-Holds Q (f ∷ fields) table each holds =
    fields_from-Holds Q fields (insert (f.owner, f.field_name) f table) each.1
      (insert-Holds Q (f.owner, f.field_name) f table each.0 holds)

tz_fields_by_key-Holds {μ} :
    (Q : Key → TzField → Type μ)
    → All (λ f. Q (f.owner, f.field_name) f) tz_fields
    → Holds Q tz_fields_by_key
unfolding tz_fields_by_key lookup
tz_fields_by_key-Holds Q each =
    fields_from-Holds Q tz_fields [] each (λ k f found. absurd (cc found))

-- A value that an object states: the object, the field's name and the value.
abbrev Stated : Type 0
Stated = TzObject × Text × TzValue

-- The table has a row for the object's owner and the name.
unfoldable pub is_known : Dict (TzOwner × Text) TzField → TzObject × Text × TzValue → Bool
is_known table (tz_object, name, value) = elim (lookup (tz_object.owner, name) table) [
  | none ↦ false
  | some field ↦ true
]

-- The owner of a stated value, and the name of its object and field.
abbrev pub source_name : TzObject × Text × TzValue → TzOwner × Text
source_name (tz_object, name, value) = (tz_object.owner, build_tz_name (tz_object.name ∷ name ∷ []))

-- What a stated field was stated as.
abbrev pub stated_as : StatedField → TzObject × Text × TzValue
stated_as s = (s.tz_object, s.field.field_name, s.value)

-- The field is the table's row for its object's owner and its own name.
abbrev pub IsRow : Dict (TzOwner × Text) TzField → StatedField → Type 0
IsRow table s = lookup (s.tz_object.owner, s.field.field_name) table ≡ some s.field

module _ (table : Dict Key TzField) (tz_object : TzObject) (name : Text) (value : TzValue)
    (values : List (TzObject × Text × TzValue)) where
  sort_fields-none :
      lookup (tz_object.owner, name) table ≡ none
      → sort_fields table ((tz_object, name, value) ∷ values) ≡ (
        (sort_fields table values).0,
        (tz_object.owner, build_tz_name (tz_object.name ∷ name ∷ []))
            ∷ (sort_fields table values).1,
      )
  unfolding sort_fields
  sort_fields-none unknown = rw (unknown, sort_fields) refl

  sort_fields-some :
      {field : TzField}
      → lookup (tz_object.owner, name) table ≡ some field
      → sort_fields table ((tz_object, name, value) ∷ values) ≡ (
        record { tz_object = tz_object; field = field; value = value }
            ∷ (sort_fields table values).0,
        (sort_fields table values).1,
      )
  unfolding sort_fields
  sort_fields-some found = rw (found, sort_fields) refl

-- The known values become fields and the others are named, each in order.
abbrev IsSplit : Dict Key TzField → List Stated → List StatedField × List (TzOwner × Text) → Type 0
IsSplit table values sorted =
    (map stated_as sorted.0 ≡ keep_if (is_known table) values)
    × (sorted.1 ≡ map source_name (keep_if (λ v. not (is_known table v)) values))
    × All (IsRow table) sorted.0

sort_fields-IsSplit :
    (table : Dict Key TzField) (values : List Stated)
    → Holds (λ k f. f.field_name ≡ k.1) table
    → IsSplit table values (sort_fields table values)
sort_fields-IsSplit table [] named = unfold sort_fields in (refl, refl, tt)
sort_fields-IsSplit table ((tz_object, name, value) ∷ values) named =
    let (known, others, rows) = sort_fields-IsSplit table values named in
    let stated : Stated = (tz_object, name, value) in
    elim (Option-cases (lookup (tz_object.owner, name) table)) [
      | inl unknown ↦
          let no : is_known table stated ≡ false = unfold is_known in rw (unknown, is_known) refl in
          subst (IsSplit table (stated ∷ values))
            (sym (sort_fields-none table tz_object name value values unknown))
            (rw no known, rw no (ap (λ rest. source_name stated ∷ rest) others), rows)
      | inr (field, found) ↦
          let same : field.field_name ≡ name = named (tz_object.owner, name) field found in
          let yes : is_known table stated ≡ true = unfold is_known in rw (found, is_known) refl in
          subst (IsSplit table (stated ∷ values))
            (sym (sort_fields-some table tz_object name value values found))
            (
              rw yes (ap₂ (λ n rest. (tz_object, n, value) ∷ rest) same known),
              rw yes others,
              (subst (λ n. lookup (tz_object.owner, n) table ≡ some field) (sym same) found, rows),
            )
    ]

-- Reading a stated field, with the sets of a document, ends with entries that have a member for each
-- of the field's levels.
abbrev pub CanBeRead : Sets → StatedField → Type 0
CanBeRead sets s =
    (entries : List TzEntry) × (list_tz_entries sets s.value s.field.nesting ≡ ok entries)
    × All (HasLength (length s.field.nesting)) entries

-- What holds of a row of the table under its key: it has that owner and that name, and a document
-- has its sets.
abbrev IsTableRow : Sets → Key → TzField → Type 0
IsTableRow sets k f = (f.owner ≡ k.0) × (f.field_name ≡ k.1) × AreKnown sets f.nesting

row-IsTableRow :
    (sets : Sets) (f : TzField)
    → AreKnown sets f.nesting
    → IsTableRow sets (f.owner, f.field_name) f
row-IsTableRow sets f known = (refl, refl, known)

tz_fields_by_key-IsTableRow :
    (held : Text → List TzValue) (objects : List TzObject)
    → Holds (IsTableRow (document_sets held objects)) tz_fields_by_key
tz_fields_by_key-IsTableRow held objects =
    tz_fields_by_key-Holds (IsTableRow (document_sets held objects)) (
      All-imp (row-IsTableRow (document_sets held objects)) tz_fields
        (document_sets-AreKnown held objects))

-- The values that objects state are split in order: those whose owner and name the table of fields
-- knows become fields, each with its own object, name and value and with the table's row for that
-- owner and name, and the others are named as unknown. With the sets of the document, whatever its
-- time definition holds, each known field can be read: every set that its levels name is there.
pub build_stated_fields-CanBeRead :
    (held : Text → List TzValue) (objects : List TzObject)
    → (map stated_as (build_stated_fields objects).0
        ≡ keep_if (is_known tz_fields_by_key) (list_field_values objects))
      × ((build_stated_fields objects).1
          ≡ map source_name
              (keep_if (λ v. not (is_known tz_fields_by_key v)) (list_field_values objects)))
      × All
          (λ s.
            IsRow tz_fields_by_key s
            × (s.field.owner ≡ s.tz_object.owner)
            × CanBeRead (document_sets held objects) s)
          (build_stated_fields objects).0
unfolding build_stated_fields
build_stated_fields-CanBeRead held objects =
    let sets = document_sets held objects in
    let rows = tz_fields_by_key-IsTableRow held objects in
    let (known, others, found) =
      sort_fields-IsSplit tz_fields_by_key (list_field_values objects)
        (λ k f there. let (owned, named, sets_known) = rows k f there in named) in
    (
      known,
      others,
      All-imp
          (λ s there.
            let (owned, named, sets_known) =
              rows (s.tz_object.owner, s.field.field_name) s.field there in
            (there, owned, list_tz_entries-Returns sets s.value s.field.nesting sets_known))
          (sort_fields tz_fields_by_key (list_field_values objects)).0 found,
    )
