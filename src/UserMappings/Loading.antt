-- ===== src/UserMappings/Loading.antt =====
-- What `load_by_schema` returns: a validated file for each schema that the pipeline's nodes need.
use tz_oss_interop.Prelude.{
  ◌≡◌, ◌⊎◌, ◌↔◌, refl, sym, ◌∙◌, ap, subst, true, false, none, some, List, [], ◌∷◌, ◌++◌, arith,
  contains, inl, inr, ◌==◌, if◌then◌else◌, ◌&&◌, ◌||◌, Option-cases, Bool-cases, ==_refl, eq_of_==,
}
use tz_oss_interop.Prelude.Text.{Text, text_eq}
use tz_oss_interop.Prelude.Dict.{Dict, lookup, insert, lookup-insert}
use tz_oss_interop.Errors.{Result, ok, >>=-eq-ok, ok_injective, fold_result}
use tz_oss_interop.Spec.{PipelineSpec}
use tz_oss_interop.UserMappings.{
  NodeLookups, union, meet, collect_schemas_for_translate, collect_schemas_for_validate,
  ValidationInput, should_ask_the_user, is_nonempty, collect_schemas_produced_by,
  choose_validation_input, load_file, load_mappings, load_by_schema,
}

contains-snoc :
    (schema y : Text) (xs : List Text)
    → contains (xs ++ y ∷ []) schema ≡ (contains xs schema || y == schema)
contains-snoc schema y [] = ground arith
contains-snoc schema y (x ∷ xs) = ground (arith, contains-snoc schema y xs)

pub contains-union :
    (schema : Text) (xs ys : List Text)
    → contains (union xs ys) schema ≡ (contains xs schema || contains ys schema)
unfolding union
contains-union schema xs [] = ground arith
contains-union schema xs (y ∷ ys) = ground (
  arith,
  contains-union schema xs ys,
  contains-union schema (xs ++ y ∷ []) ys,
  contains-snoc schema y xs,
  text_eq.agrees y schema,
)

contains-meet :
    (schema : Text) (xs ys : List Text)
    → contains (meet xs ys) schema ≡ (contains xs schema && contains ys schema)
contains-meet schema [] ys = refl
contains-meet schema (x ∷ xs) ys =
    ground (arith, contains-meet schema xs ys, text_eq.agrees x schema)

module _ {F U : Type 0} (validate_as : Text → F → Result U) (files : Dict Text F) where
  -- The file of `schema` was given, and `loaded` has what its validation returned.
  abbrev pub IsLoadedFrom : Dict Text U → Text → Type 0
  IsLoadedFrom loaded schema =
      (file : F) × (value : U) × (lookup schema files ≡ some file)
      × (validate_as schema file ≡ ok value)
      × (lookup schema loaded ≡ some value)

  load_file-eq-ok :
      (schema : Text) (before after : Dict Text U)
      → load_file validate_as schema (lookup schema files) before ≡ ok after
      → (file : F) × (value : U) × (lookup schema files ≡ some file)
        × (validate_as schema file ≡ ok value)
        × (insert schema value before ≡ after)
  load_file-eq-ok schema before after h = elim (Option-cases (lookup schema files)) [
    | inl k ↦ absurd (cc (rw k at h))
    | inr (file, k) ↦
        let made : load_file validate_as schema (some file) before ≡ ok after = rw k at h in
        let (value, fine, same) =
          >>=-eq-ok (validate_as schema file) (λ v. ok (insert schema v before)) made in
        (file, value, k, fine, ok_injective same)
  ]

  load_files-lem :
      (schemas : List Text) (before after : Dict Text U)
      → fold_result
          (λ result schema. load_file validate_as schema (lookup schema files) result)
          before
          schemas
        ≡ ok after
      → (schema : Text)
      → ((contains schemas schema ≡ true) × IsLoadedFrom after schema)
        ⊎ ((contains schemas schema ≡ false) × (lookup schema after ≡ lookup schema before))
  load_files-lem [] before after h schema = inr (refl, ap (lookup schema) (sym (ok_injective h)))
  load_files-lem (first ∷ rest) before after h schema =
      let (middle, one, others) =
        >>=-eq-ok (load_file validate_as first (lookup first files) before) _ h in
      let (file, value, found, fine, same) = load_file-eq-ok first before middle one in
      elim (load_files-lem rest middle after others schema) [
        | inl (is_in, loaded) ↦ inl (ground arith, loaded)
        | inr (not_in, kept) ↦
            let now : lookup schema middle
                ≡ (if first == schema then some value else lookup schema before) =
              ap (lookup schema) (sym same) ∙ lookup-insert first schema value before in
            elim (Bool-cases (first == schema)) [
              | inl hit ↦
                  let is : first ≡ schema = eq_of_== first schema hit in
                  inl (
                    ground arith,
                    (
                      file,
                      value,
                      subst (λ s. lookup s files ≡ some file) is found,
                      subst (λ s. validate_as s file ≡ ok value) is fine,
                      kept ∙ now ∙ ground arith,
                    ),
                  )
              | inr miss ↦ inr (ground arith, kept ∙ now ∙ ground arith)
            ]
      ]

  -- Where `load_by_schema` returns, every schema that the pipeline's nodes ask for has a file among
  -- those given and is loaded with what the validation of its file returned, and no other schema is
  -- loaded.
  pub load_by_schema_lem :
      (node_lookups : NodeLookups) (spec : PipelineSpec) (loaded : Dict Text U)
      → load_by_schema validate_as node_lookups spec files ≡ ok loaded
      → (schemas : List Text) × (collect_schemas_for_translate node_lookups spec ≡ ok schemas)
        × ((schema : Text)
            → ((contains schemas schema ≡ true) × IsLoadedFrom loaded schema)
              ⊎ ((contains schemas schema ≡ false) × (lookup schema loaded ≡ none)))
  unfolding load_by_schema load_mappings lookup
  load_by_schema_lem node_lookups spec loaded h =
      let (schemas, collected, rest) =
        >>=-eq-ok (collect_schemas_for_translate node_lookups spec)
          (λ schemas. load_mappings validate_as schemas files) h in
      (schemas, collected, load_files-lem schemas [] loaded rest)

nothing_in :
    (xs : List Text) → ((schema : Text) → contains xs schema ≡ false) → is_nonempty xs ≡ false
nothing_in [] h = refl
nothing_in (x ∷ xs) h = absurd (cc (h x, ==_refl x))

in_nothing :
    (xs : List Text) → is_nonempty xs ≡ false → (schema : Text) → contains xs schema ≡ false
in_nothing [] h schema = refl
in_nothing (x ∷ xs) h schema = absurd (cc h)

-- The schemas that `choose_validation_input` calls derived are those that the pipeline's source and
-- validators need and a mapping pipeline writes; and it asks the user exactly where one is needed
-- and none of those that are needed is written by a mapping pipeline.
pub choose_validation_input_lem :
    (node_lookups : NodeLookups) (spec : PipelineSpec) (mapping_specs : List PipelineSpec)
    (given : ValidationInput)
    → choose_validation_input node_lookups spec mapping_specs ≡ ok given
    → (produced : List Text) × (collect_schemas_for_validate node_lookups spec ≡ ok given.needed)
      × (collect_schemas_produced_by node_lookups mapping_specs ≡ ok produced)
      × ((schema : Text)
          → contains given.derived_elsewhere schema
            ≡ (contains given.needed schema && contains produced schema))
      × ((should_ask_the_user given ≡ true) ↔ (
          (is_nonempty given.needed ≡ true)
          × ((schema : Text)
              → contains given.needed schema ≡ true
              → contains produced schema ≡ false)))
unfolding choose_validation_input should_ask_the_user
choose_validation_input_lem node_lookups spec mapping_specs given h =
    let (needed, need, h') = >>=-eq-ok (collect_schemas_for_validate node_lookups spec) _ h in
    let (produced, produce, h'') =
      >>=-eq-ok (collect_schemas_produced_by node_lookups mapping_specs)
        (λ produced. ok (record { needed = needed; derived_elsewhere = meet needed produced }))
        h' in
    let chosen : ValidationInput = record {
      needed = needed;
      derived_elsewhere = meet needed produced;
    } in
    let same : chosen ≡ given = ok_injective h'' in
    (
      produced,
      need ∙ ap (λ g. ok g.needed) same,
      produce,
      subst
          (λ g.
            (schema : Text)
            → contains g.derived_elsewhere schema
              ≡ (contains g.needed schema && contains produced schema))
          same (λ schema. contains-meet schema needed produced),
      subst
          (λ g. (should_ask_the_user g ≡ true) ↔ (
            (is_nonempty g.needed ≡ true)
            × ((schema : Text)
                → contains g.needed schema ≡ true
                → contains produced schema ≡ false)))
          same
          (
            (λ asks. (
              ground arith,
              λ schema is_in.
                  let none_derived = in_nothing (meet needed produced) (ground arith) schema in
                  let both = contains-meet schema needed produced in ground arith,
            )),
            λ (some_needed, disjoint).
                let empty = nothing_in (meet needed produced) (λ schema.
                  let apart = disjoint schema in
                  contains-meet schema needed produced ∙ ground arith) in
                ground arith,
          ),
    )
