-- ===== src/TzFormat.antt =====
-- interop/plugins/shared/osemosys_canonical/tz_values.py: what a value of the TZ format of OSeMOSYS
-- states for each member of the sets that it is nested by. A value is what JSON yields, so the keys
-- of a level are strings, each of them once.
pub mod Levels
pub mod Reference
pub mod Entries
pub mod Reading
pub mod Totality
pub mod Fields
pub mod Document
pub mod RegionPairs
pub mod Mirror
use tz_oss_interop.Prelude.{
  ℕ, Bool, true, false, Option, none, some, List, [], ◌∷◌, ◌++◌, if◌then◌else◌, contains, any, not,
  ◌==◌, ◌&&◌, ◌||◌, map, keep_if, length, ◌≡◌, refl, ◌↔◌, arith, Eq,
}
use tz_oss_interop.Prelude.Text.{Text, text_eq, codes}
use tz_oss_interop.Prelude.Dict.{Dict, lookup, keys}
use tz_oss_interop.Errors.{Result, ok, err, ◌>>=◌, map_result, missing_key}

-- A number, by its text: an integer, or a float with the text of the integer that it is, where it is
-- one.
pub data Number : Type 0 where
  whole : (shown : Text) → Number
  float : (shown : Text) (as_integer : Option Text) → Number

mutual
  pub data TzValue : Type 0 where
    nothing : TzValue
    flag : Bool → TzValue
    numeric : Number → TzValue
    word : Text → TzValue
    listed : (shown : Text) → TzValue
    nested : Children → TzValue

  -- The keys of a level, in order, each with its value.
  pub data Children : Type 0 where
    done : Children
    child : (key : Text) (value : TzValue) (rest : Children) → Children

abbrev pub children_of : Children → Dict Text TzValue
children_of done = []
children_of (child key value rest) = (key, value) ∷ children_of rest

-- The members of each set.
abbrev pub Sets : Type 0
Sets = Dict Text (List Text)

abbrev pub wildcard : Text
wildcard = codes "*"

abbrev pub region_set : Text
region_set = codes "REGION"

abbrev pub second_region : Text
second_region = codes "_REGION"

-- `_get_set_members`: the second region of a pair is a region.
unfoldable pub set_of_level : Text → Text
set_of_level level = if level == second_region then region_set else level

unfoldable pub get_set_members : Sets → Text → Result (List Text)
get_set_members sets level = elim (lookup (set_of_level level) sets) [
  | none ↦ err missing_key
  | some members ↦ ok members
]

module _ {ℓ} {V : Type ℓ} where
  -- The keys of a level that name a member.
  abbrev pub named_in : Dict Text V → Dict Text V
  named_in level = keep_if (λ c. not (c.0 == wildcard)) level

  -- `_list_level_members`
  unfoldable pub list_level_members : Dict Text V → List Text → List (Text × V)
  list_level_members level members = elim (lookup wildcard level) [
    | none ↦ named_in level
    | some value ↦
        named_in level
        ++ map (λ m. (m, value)) (keep_if (λ m. not (contains (keys (named_in level)) m)) members)
  ]

-- `TzEntry`: the members of a value, and the value.
abbrev pub TzEntry : Type 0
TzEntry = List Text × TzValue

abbrev pub with_member : Text → List TzEntry → List TzEntry
with_member member entries = map (λ entry. (member ∷ entry.0, entry.1)) entries

abbrev pub flatten {ℓ} : {A : Type ℓ} → List (List A) → List A
flatten [] = []
flatten (xs ∷ xss) = xs ++ flatten xss

-- `itertools.product`, as the keys of entries of one value.
unfoldable pub product : TzValue → List (List Text) → List TzEntry
product value [] = ([], value) ∷ []
product value (members ∷ lists) =
    let rest = product value lists in flatten (map (λ member. with_member member rest) members)

-- `_list_repeated_entries`
unfoldable pub list_repeated_entries : Sets → TzValue → List Text → Result (List TzEntry)
list_repeated_entries sets value levels = do
  lists ← map_result (get_set_members sets) levels
  ok (product value lists)

-- `list_tz_entries`
unfoldable pub list_tz_entries : Sets → TzValue → List Text → Result (List TzEntry)
list_tz_entries sets value [] = ok (([], value) ∷ [])
list_tz_entries sets (nested children) (level ∷ levels) = do
  members ← get_set_members sets level
  groups ←
      map_result (λ c. list_tz_entries sets c.1 levels >>= λ entries. ok (with_member c.0 entries))
        (list_level_members (children_of children) members)
  ok (flatten groups)
list_tz_entries sets value (level ∷ levels) = list_repeated_entries sets value (level ∷ levels)

abbrev is_empty : List Text → Bool
is_empty [] = true
is_empty (m ∷ ms) = false

-- `any(not _get_set_members(level, sets) for level in levels)`
unfoldable pub any_empty : Sets → List Text → Result Bool
any_empty sets [] = ok false
any_empty sets (level ∷ levels) =
    let more = any_empty sets levels in
    get_set_members sets level >>= λ members. if is_empty members then ok true else more

-- `has_empty_expansion`
unfoldable mutual
  pub has_empty_expansion : Sets → TzValue → List Text → Result Bool
  has_empty_expansion sets value [] = ok false
  has_empty_expansion sets (nested children) (level ∷ levels) =
      let deeper = has_empty_child sets children levels in
      if contains (keys (children_of children)) wildcard
      then (get_set_members sets level >>= λ members. if is_empty members then ok true else deeper)
      else deeper
  has_empty_expansion sets value (level ∷ levels) = any_empty sets (level ∷ levels)

  -- `any(has_empty_expansion(child, ...) for child in value.values())`
  pub has_empty_child : Sets → Children → List Text → Result Bool
  has_empty_child sets done levels = ok false
  has_empty_child sets (child key value rest) levels =
      let more = has_empty_child sets rest levels in
      has_empty_expansion sets value levels >>= λ found. if found then ok true else more
