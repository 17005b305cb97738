-- ===== src/Extensions/Documents.antt =====
-- The sidecar document of interop/core/extensions.py: staging its records and appending to them.
use tz_oss_interop.Prelude.{
  ◌≡◌, refl, ◌∙◌, ap, true, Option, none, some, List, [], ◌∷◌, ◌++◌, arith, ◌==◌, if◌then◌else◌,
  contains, inl, inr, Bool-cases,
}
use tz_oss_interop.Prelude.Dict.{lookup, insert, lookup-insert, or_else}
use tz_oss_interop.Extensions.{ExtensionRecord, StagedExtensions, records_of, append_extensions}
use tz_oss_interop.Extensions.Kinds.{
  ExtensionKind, kind_eq, kind_beq_iff, kinds, bus, generator, load, line, controllable_line,
  storage, reserve, constraint, network,
}

-- `Extensions`: `getattr(document, kind)` for each kind.
abbrev pub Document : Type 0
Document = ExtensionKind → List ExtensionRecord

-- The entry of a kind in a staging: none where it states no record.
abbrev pub stated : List ExtensionRecord → Option (List ExtensionRecord)
stated [] = none
stated (r ∷ records) = some (r ∷ records)

or_else_self : (o : Option (List ExtensionRecord)) → or_else o o ≡ o
or_else_self none = refl
or_else_self (some records) = refl

or_else-none : (o : Option (List ExtensionRecord)) → or_else o none ≡ o
or_else-none none = refl
or_else-none (some records) = refl

or_empty :
    (records : List ExtensionRecord)
    → (elim (stated records) as (λ o. List ExtensionRecord) [ none ↦ [] | some rs ↦ rs ]) ≡ records
or_empty [] = refl
or_empty (r ∷ records) = refl

all_kinds : (kind : ExtensionKind) → contains kinds kind ≡ true
all_kinds bus = refl
all_kinds generator = refl
all_kinds load = refl
all_kinds line = refl
all_kinds controllable_line = refl
all_kinds storage = refl
all_kinds reserve = refl
all_kinds constraint = refl
all_kinds network = refl

-- The loop of `stage_extensions`.
unfoldable pub stage_kinds : Document → List ExtensionKind → StagedExtensions → StagedExtensions
stage_kinds document [] staged = staged
stage_kinds document (kind ∷ rest) staged =
    stage_kinds document rest
      (elim (document kind) [ [] ↦ staged | r ∷ records ↦ insert kind (r ∷ records) staged ])

unfoldable pub stage_extensions : Document → StagedExtensions
unfolding stage_kinds
stage_extensions document = stage_kinds document kinds []

-- `build_extensions`, of records that are staged under their own kind: each kind's records as they are
-- staged. The `ValidationError` for a record of another kind's class is not modelled.
unfoldable pub build_extensions : StagedExtensions → Document
build_extensions staged kind = records_of kind staged

-- One round of the loop.
abbrev stage_one : Document → ExtensionKind → StagedExtensions → StagedExtensions
stage_one document kind staged = elim (document kind) [
  | [] ↦ staged
  | r ∷ records ↦ insert kind (r ∷ records) staged
]

lookup-stage_one :
    (document : Document) (kind j : ExtensionKind) (staged : StagedExtensions)
    → lookup j (stage_one document kind staged)
      ≡ (if kind == j then or_else (stated (document kind)) (lookup j staged) else lookup j staged)
lookup-stage_one document kind j staged = go (document kind)
  where
    go :
        (records : List ExtensionRecord)
        → lookup j (elim records [ [] ↦ staged | r ∷ rs ↦ insert kind (r ∷ rs) staged ])
          ≡ (if kind == j then or_else (stated records) (lookup j staged) else lookup j staged)
    go [] = ground arith
    go (r ∷ rs) = ground (arith, lookup-insert kind j (r ∷ rs) staged)

-- A kind whose records are staged stays so.
stage_done :
    (document : Document) (j : ExtensionKind) (rest : List ExtensionKind)
    (staged : StagedExtensions)
    → lookup j staged ≡ stated (document j)
    → lookup j (stage_kinds document rest staged) ≡ stated (document j)
unfolding stage_kinds
stage_done document j [] staged h = h
stage_done document j (kind ∷ rest) staged h =
    stage_done document j rest (stage_one document kind staged)
      (lookup-stage_one document kind j staged ∙ settled)
  where
    settled :
        (if kind == j then or_else (stated (document kind)) (lookup j staged) else lookup j staged)
        ≡ stated (document j)
    settled = elim (Bool-cases (kind == j)) [
      | inl here ↦
          let same : kind ≡ j = (kind_beq_iff kind j).0 here in
          rw here (rw (same, h) (or_else_self (stated (document j))))
      | inr other ↦ rw other h
    ]

stage_todo :
    (document : Document) (j : ExtensionKind) (rest : List ExtensionKind)
    (staged : StagedExtensions)
    → lookup j staged ≡ none
    → contains rest j ≡ true
    → lookup j (stage_kinds document rest staged) ≡ stated (document j)
unfolding stage_kinds
stage_todo document j [] staged h m = absurd (cc m)
stage_todo document j (kind ∷ rest) staged h m = elim (Bool-cases (kind == j)) [
  | inl here ↦
      let same : kind ≡ j = (kind_beq_iff kind j).0 here in
      let now : lookup j (stage_one document kind staged) ≡ stated (document j) =
        lookup-stage_one document kind j staged
        ∙ rw here (rw (same, h) (or_else-none (stated (document j)))) in
      stage_done document j rest (stage_one document kind staged) now
  | inr other ↦
      let still : lookup j (stage_one document kind staged) ≡ none =
        lookup-stage_one document kind j staged ∙ rw other h in
      stage_todo document j rest (stage_one document kind staged) still (rw other at m)
]

-- Staging a document gives each kind the records that the document states for it, and gives a kind
-- that states none no entry at all.
pub lookup-stage_extensions :
    (document : Document) (kind : ExtensionKind)
    → lookup kind (stage_extensions document) ≡ stated (document kind)
unfolding stage_extensions
lookup-stage_extensions document kind =
    stage_todo document kind kinds [] (unfold lookup in refl) (all_kinds kind)

-- The document that the staged records of a document make up is that document.
pub build_extensions-stage_extensions :
    (document : Document) (kind : ExtensionKind)
    → build_extensions (stage_extensions document) kind ≡ document kind
unfolding build_extensions
build_extensions-stage_extensions document kind =
    ap (λ o. elim o as (λ _. List ExtensionRecord) [ none ↦ [] | some rs ↦ rs ])
      (lookup-stage_extensions document kind)
    ∙ or_empty (document kind)

-- Records that are appended to a kind follow those that it has, and no other kind changes.
pub records_of-append_extensions :
    (staged : StagedExtensions) (kind j : ExtensionKind) (records : List ExtensionRecord)
    → records_of j (append_extensions staged kind records)
      ≡ (if kind == j then records_of kind staged ++ records else records_of j staged)
unfolding append_extensions
records_of-append_extensions staged kind j records =
    ground (arith, lookup-insert kind j (records_of kind staged ++ records) staged)
