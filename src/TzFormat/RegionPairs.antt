-- ===== src/TzFormat/RegionPairs.antt =====
-- `build_bare_value`, `build_region_pairs` and `_list_region_pairs` of
-- interop/plugins/shared/osemosys_canonical/tz_values.py. `mirror_pair` is the body of the loop; the
-- copy that the code makes first keeps its argument as it is, so here it is the argument.
use tz_oss_interop.Prelude.{
  Bool, true, false, Option, none, some, [], ◌∷◌, ◌++◌, if◌then◌else◌, contains, ◌==◌, map, ◌≡◌,
  pair_eq,
}
use tz_oss_interop.Prelude.Text.{Text, text_eq, codes}
use tz_oss_interop.Prelude.Dict.{Dict, lookup, keys}
use tz_oss_interop.TzFormat.{TzValue, nested, Children, done, child, children_of}

-- `build_bare_value`: a composed value states its data.
unfoldable pub build_bare_value : TzValue → TzValue
build_bare_value (nested children) =
    if contains (keys (children_of children)) (codes "is_composed")
    then elim (lookup (codes "data") (children_of children)) [
      | none ↦ nested children
      | some value ↦ value
    ]
    else nested children
build_bare_value value = value

-- `d.setdefault(key, value)`
unfoldable pub set_default : Text → TzValue → Children → Children
set_default key value done = child key value done
set_default key value (child k w rest) =
    let more = set_default key value rest in if k == key then child k w rest else child k w more

-- `reverse.setdefault(region, rest)`, where `reverse` is a dict.
unfoldable pub add_reverse : Text → TzValue → TzValue → TzValue
add_reverse region rest (nested others) = nested (set_default region rest others)
add_reverse region rest value = value

-- The change of the value under a key.
unfoldable pub change_child : Text → (TzValue → TzValue) → Children → Children
change_child key change done = done
change_child key change (child k w rest) =
    let more = change_child key change rest in
    if k == key then child k (change w) rest else child k w more

unfoldable pub mirror_pair : (Text × Text) × TzValue → Children → Children
mirror_pair ((region, other), rest) mirrored =
    change_child other (add_reverse region rest) (set_default other (nested done) mirrored)

unfoldable pub pairs_under : Text → TzValue → Dict (Text × Text) TzValue
pairs_under region (nested others) = map (λ o. ((region, o.0), o.1)) (children_of others)
pairs_under region value = []

-- `_list_region_pairs`
unfoldable pub list_region_pairs : Children → Dict (Text × Text) TzValue
list_region_pairs done = []
list_region_pairs (child region others rest) = pairs_under region others ++ list_region_pairs rest

unfoldable pub mirror_all : Dict (Text × Text) TzValue → Children → Children
mirror_all [] mirrored = mirrored
mirror_all (pair ∷ pairs) mirrored = mirror_all pairs (mirror_pair pair mirrored)

-- `build_region_pairs`
unfoldable pub mirror_value : TzValue → TzValue
mirror_value (nested pairs) = nested (mirror_all (list_region_pairs pairs) pairs)
mirror_value value = value

unfoldable pub build_region_pairs : TzValue → TzValue
build_region_pairs value = mirror_value (build_bare_value value)

-- The value of one direction between two regions.
unfoldable pub inner_at : Text → Option TzValue → Option TzValue
inner_at other (some (nested others)) = lookup other (children_of others)
inner_at other (some value) = none
inner_at other none = none

unfoldable pub pair_at : Text → Text → Children → Option TzValue
pair_at region other pairs = inner_at other (lookup region (children_of pairs))

abbrev pub is_level : TzValue → Bool
is_level (nested children) = true
is_level value = false

-- Each region states a dict of other regions.
unfoldable pub AreLevels : Children → Type 0
AreLevels done = Unit
AreLevels (child key value rest) = (is_level value ≡ true) × AreLevels rest
