-- ===== src/TzFormat/Document.antt =====
-- interop/plugins/shared/osemosys_canonical/tz_document.py: the objects of a document of the TZ
-- format, the fields that they state and the members of the sets. The validation of an object by
-- its pydantic model is an argument: it gives the object's part, or the reason that it cannot be used.
pub mod Members
pub mod Stated
use tz_oss_interop.Prelude.{
  ℕ, suc, Bool, true, false, Option, none, some, List, [], ◌∷◌, ◌++◌, if◌then◌else◌, contains, ◌==◌,
  ◌⊎◌, inl, inr, map, keep_if, get_last?, Eq, pair_eq, not,
}
use tz_oss_interop.Prelude.Text.{Text, text_eq, codes, decimal}
use tz_oss_interop.Prelude.Dict.{Dict, lookup, insert, update, keys}
use tz_oss_interop.TzFormat.{
  Number, whole, float, TzValue, nothing, flag, numeric, word, listed, nested, children_of, Sets,
  flatten,
}
use tz_oss_interop.TzFormat.RegionPairs.{build_region_pairs}
use tz_oss_interop.TzFormat.Fields.{
  TzOwner, model, time_definition, regions, region_groups, commodities, impacts, technologies,
  operating_modes, storage, trade, owner_eq, build_tz_name, TzField, object_sets, time_sets,
  region_pair_fields,
}
use tz_oss_interop.TzFormat.Fields.Table.{tz_fields}

-- `normalise_member`, the text where it gives one: 2030 and 2030.0 are both `2030`. It is for what
-- `_normalise_set_members` and an object's id hold.
unfoldable pub member_of_value : TzValue → Option Text
member_of_value (word w) = some w
member_of_value (numeric (float shown (some integer))) = some integer
member_of_value (numeric (float shown none)) = some shown
member_of_value (numeric (whole shown)) = some shown
member_of_value value = none

-- `TzNamedPart`, `TzTechnologyPart` and `TzTradePart`; `extra` is `model_extra`.
pub data TzPart : Type 0 where
  named : (id : Text) (extra : Dict Text TzValue) → TzPart
  technology : (id : Text) (modes : List TzValue) (extra : Dict Text TzValue) → TzPart
  traded :
      (id : Option Text) (commodity : Text) (construct_region_pairs : TzValue)
      (extra : Dict Text TzValue)
      → TzPart

unfoldable pub key_member : TzPart → Text
key_member (named id extra) = id
key_member (technology id modes extra) = id
key_member (traded id commodity construct extra) = commodity

-- `label`: an id that is missing or empty gives way to the commodity.
unfoldable pub label : TzPart → Text
label (named id extra) = id
label (technology id modes extra) = id
label (traded none commodity construct extra) = commodity
label (traded (some []) commodity construct extra) = commodity
label (traded (some (c ∷ id)) commodity construct extra) = c ∷ id

abbrev pub with_region_pairs : Text × TzValue → Text × TzValue
with_region_pairs stated =
    if contains region_pair_fields stated.0 then (stated.0, build_region_pairs stated.1) else stated

unfoldable pub field_values : TzPart → Dict Text TzValue
field_values (named id extra) = extra
field_values (technology id modes extra) = extra
field_values (traded id commodity (flag true) extra) = map with_region_pairs extra
field_values (traded id commodity construct extra) = extra

-- `unread_fields`: the names of the fields.
unfoldable pub unread_fields : TzPart → List Text
unread_fields (named id extra) = []
unread_fields (technology id modes extra) = []
unread_fields (traded id commodity nothing extra) = []
unread_fields (traded id commodity (flag b) extra) = []
unread_fields (traded id commodity construct extra) = codes "construct_region_pairs" ∷ []

-- `TzObject`
pub record TzObject : Type 0 where
  pub owner : TzOwner
  pub name : Text
  pub object_keys : List Text
  pub values : Dict Text TzValue

-- `SourceName`: an owner and a name of it.
abbrev pub SourceName : Type 0
SourceName = TzOwner × Text

-- `PartList`, with the place's owner and keys.
pub record PartList : Type 0 where
  pub owner : TzOwner
  pub place_keys : List Text
  pub parts : List TzPart
  pub skipped : List (SourceName × Text)

abbrev pub object_of : TzOwner → List Text → TzPart → TzObject
object_of owner place_keys part = record {
  owner = owner;
  name = build_tz_name (place_keys ++ label part ∷ []);
  object_keys = place_keys ++ key_member part ∷ [];
  values = field_values part;
}

-- `PartList.objects`
unfoldable pub objects_of : PartList → List TzObject
objects_of part_list = map (object_of part_list.owner part_list.place_keys) part_list.parts

-- `list(dict.fromkeys(members))`
unfoldable pub without_repeats {ℓ} : {A : Type ℓ} → ⦃e : Eq A⦄ → List A → List A
without_repeats [] = []
without_repeats (m ∷ members) = m ∷ keep_if (λ n. not (n == m)) (without_repeats members)

-- `PartList.unread_fields`: the paths, the keys of a dict.
unfoldable pub unread_in : PartList → List SourceName
unread_in part_list = without_repeats (
    flatten (
      map
        (λ part.
          map
            (λ field. (
              part_list.owner,
              build_tz_name (build_tz_name (part_list.place_keys ++ label part ∷ []) ∷ field ∷ []),
            ))
            (unread_fields part))
        part_list.parts))

-- `_build_item_label`
unfoldable pub item_id : TzValue → Option Text
item_id (nested children) = elim (lookup (codes "id") (children_of children)) [
  | none ↦ none
  | some value ↦ member_of_value value
]
item_id value = none

unfoldable pub build_item_label : ℕ → TzValue → Text
build_item_label position item = elim (item_id item) [
  | none ↦ codes "item " ++ decimal position
  | some id ↦ id
]

-- `TzModelDocument`: its own fields, those of its time definition, the items of each owner.
pub record TzModelDocument : Type 0 where
  pub model_values : Dict Text TzValue
  pub time_values : Dict Text TzValue
  pub items_of : TzOwner → List TzValue

-- What validates an item of an owner: its part, or the reason that it cannot be used.
module _ (validate : TzOwner → TzValue → TzPart ⊎ Text) where
  -- The loop of `_build_part_list`, from a position.
  unfoldable pub part_list_from :
      TzOwner → List Text → ℕ → List TzValue → List TzPart × List (SourceName × Text)
  part_list_from owner place_keys position [] = ([], [])
  part_list_from owner place_keys position (item ∷ items) =
      let rest = part_list_from owner place_keys (suc position) items in
      elim (validate owner item) [
        | inl part ↦ (part ∷ rest.0, rest.1)
        | inr reason ↦ (
          rest.0,
          ((owner, build_tz_name (place_keys ++ build_item_label position item ∷ [])), reason)
              ∷ rest.1,
        )
      ]

  -- `_build_part_list`
  unfoldable pub build_part_list : TzOwner → List Text → List TzValue → PartList
  build_part_list owner place_keys items =
      let (parts, skipped) = part_list_from owner place_keys 1 items in
      record { owner = owner; place_keys = place_keys; parts = parts; skipped = skipped }

  -- `_build_operating_modes`
  unfoldable pub build_operating_modes : TzPart → List PartList
  build_operating_modes (technology id modes extra) =
      build_part_list operating_modes (id ∷ []) modes ∷ []
  build_operating_modes part = []

  -- The part lists of `build_tz_objects`.
  unfoldable pub part_lists : TzModelDocument → List PartList
  part_lists document =
      let list_of = λ (owner : TzOwner). build_part_list owner [] (document.items_of owner) in
      let technology_list = list_of technologies in
      technology_list
      ∷ list_of trade
      ∷ list_of regions
      ∷ list_of region_groups
      ∷ list_of commodities
      ∷ list_of impacts
      ∷ list_of storage
      ∷ flatten (map build_operating_modes technology_list.parts)

  -- `_build_single_objects`
  unfoldable pub single_objects : TzModelDocument → List TzObject
  single_objects document =
      record { owner = model; name = []; object_keys = []; values = document.model_values }
      ∷ record {
        owner = time_definition;
        name = [];
        object_keys = [];
        values = document.time_values;
      }
      ∷ []

  -- `build_tz_objects`: its objects, what it skips and what it does not read.
  unfoldable pub build_tz_objects :
      TzModelDocument → List TzObject × List (SourceName × Text) × List SourceName
  build_tz_objects document = (
    single_objects document ++ flatten (map objects_of (part_lists document)),
    flatten (map (λ part_list. part_list.skipped) (part_lists document)),
    without_repeats (flatten (map unread_in (part_lists document))),
  )

-- `StatedField`
pub record StatedField : Type 0 where
  pub tz_object : TzObject
  pub field : TzField
  pub value : TzValue

abbrev pub fields_from :
    List TzField → Dict (TzOwner × Text) TzField → Dict (TzOwner × Text) TzField
fields_from [] table = table
fields_from (f ∷ fields) table = fields_from fields (insert (f.owner, f.field_name) f table)

-- `TZ_FIELDS_BY_KEY`
unfoldable pub tz_fields_by_key : Dict (TzOwner × Text) TzField
tz_fields_by_key = fields_from tz_fields []

abbrev pub is_stated : Text × TzValue → Bool
is_stated (name, nothing) = false
is_stated (name, value) = true

-- `_list_field_values`
unfoldable pub list_field_values : List TzObject → List (TzObject × Text × TzValue)
list_field_values [] = []
list_field_values (tz_object ∷ objects) =
    map (λ stated. (tz_object, stated.0, stated.1)) (keep_if is_stated tz_object.values)
    ++ list_field_values objects

-- The loop of `build_stated_fields`: the known fields and the unknown ones.
unfoldable pub sort_fields :
    Dict (TzOwner × Text) TzField
    → List (TzObject × Text × TzValue)
    → List StatedField × List SourceName
sort_fields table [] = ([], [])
sort_fields table ((tz_object, name, value) ∷ values) =
    let rest = sort_fields table values in
    elim (lookup (tz_object.owner, name) table) [
      | none ↦ (rest.0, (tz_object.owner, build_tz_name (tz_object.name ∷ name ∷ [])) ∷ rest.1)
      | some field ↦
          (record { tz_object = tz_object; field = field; value = value } ∷ rest.0, rest.1)
    ]

-- `build_stated_fields`
unfoldable pub build_stated_fields : List TzObject → List StatedField × List SourceName
build_stated_fields objects = sort_fields tz_fields_by_key (list_field_values objects)

-- `[tz_object.keys[-1] for tz_object in objects if tz_object.owner is owner]`; an object of an owner
-- with a set has a key.
unfoldable pub members_of_owner : TzOwner → List TzObject → List Text
members_of_owner owner [] = []
members_of_owner owner (tz_object ∷ objects) =
    let rest = members_of_owner owner objects in
    if tz_object.owner == owner
    then (elim (get_last? tz_object.object_keys) [ none ↦ rest | some key ↦ key ∷ rest ])
    else rest

-- `build_tz_sets`
unfoldable pub build_tz_sets : Sets → List TzObject → Sets
build_tz_sets found objects =
    map (λ s. (s.0, without_repeats s.1))
      (update found (map (λ o. (o.1, members_of_owner o.0 objects)) object_sets))

-- `[member for member in found if isinstance(member, str)]`, of normalised members.
unfoldable pub members_in : List TzValue → List Text
members_in [] = []
members_in (value ∷ values) = elim (member_of_value value) [
  | none ↦ members_in values
  | some member ↦ member ∷ members_in values
]

-- The sets of `TzTimeDefinitionPart.build_time_sets`, from what each of its fields holds.
unfoldable pub build_time_sets : (Text → List TzValue) → Sets
build_time_sets held = map (λ s. (s.1, members_in (held s.0))) time_sets
