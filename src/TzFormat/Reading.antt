-- ===== src/TzFormat/Reading.antt =====
-- The entries of a value against the reference.
use tz_oss_interop.Prelude.{
  false, none, List, [], ◌∷◌, ◌++◌, ◌≡◌, refl, sym, ◌∙◌, subst, arith, All, All-imp,
}
use tz_oss_interop.Prelude.Text.{Text, text_eq}
use tz_oss_interop.Prelude.Dict.{lookup-All, Dict, lookup}
use tz_oss_interop.Errors.{Result, ok, >>=-eq-ok, map_result, map_result-eq-ok, ok_injective}
use tz_oss_interop.TzFormat.{
  TzValue, nested, nothing, flag, numeric, word, listed, Children, done, child, children_of, Sets,
  TzEntry, flatten, product, set_of_level, get_set_members, list_level_members,
  list_repeated_entries, list_tz_entries,
}
use tz_oss_interop.TzFormat.Levels.{
  IsDistinct, lookup-list_level_members, list_level_members-IsDict, All-list_level_members,
}
use tz_oss_interop.TzFormat.Reference.{
  path_eq, members_of, step_into, is_nested, value_at, HasDistinctKeys, HaveDistinctKeys,
}
use tz_oss_interop.TzFormat.Entries.{
  lookup-with_member_nil, get_set_members-ok, lookup-product, lookup-product_none, grouped, read_of,
  ReadsAt, lookup-groups,
}

have-All :
    (children : Children)
    → HaveDistinctKeys children
    → All (λ c. HasDistinctKeys c.1) (children_of children)
unfolding HaveDistinctKeys
have-All done h = tt
have-All (child key value rest) h = (h.0, have-All rest h.1)

abbrev pub AreDistinct : Sets → Type 0
AreDistinct sets = All (λ s. IsDistinct s.1) sets

get_set_members-IsDistinct :
    (sets : Sets) (level : Text) {members : List Text}
    → AreDistinct sets
    → get_set_members sets level ≡ ok members
    → IsDistinct members
unfolding get_set_members
get_set_members-IsDistinct sets level distinct found =
    lookup-All IsDistinct (set_of_level level) sets distinct (ground arith)

list_tz_entries-bare :
    (sets : Sets) (value : TzValue) (level : Text) (levels : List Text)
    → is_nested value ≡ false
    → list_tz_entries sets value (level ∷ levels)
      ≡ list_repeated_entries sets value (level ∷ levels)
unfolding list_tz_entries
list_tz_entries-bare sets value level levels bare = ground arith

lookup-list_repeated_entries :
    (sets : Sets) (value : TzValue) (levels path : List Text) {entries : List TzEntry}
    → is_nested value ≡ false
    → list_repeated_entries sets value levels ≡ ok entries
    → lookup path entries ≡ value_at sets value levels path
unfolding list_repeated_entries
lookup-list_repeated_entries sets value levels path bare returned =
    let (lists, known, same) = >>=-eq-ok (map_result (get_set_members sets) levels) _ returned in
    subst (λ e. lookup path e ≡ value_at sets value levels path) (ok_injective same)
      (lookup-product sets value levels path bare known)

value_at-nested :
    (sets : Sets) (children : Children) (level m : Text) (levels path members : List Text)
    → members_of sets level ≡ members
    → value_at sets (nested children) (level ∷ levels) (m ∷ path)
      ≡ read_of
          (λ v. value_at sets v levels path)
          (lookup m (list_level_members (children_of children) members))
unfolding value_at step_into
value_at-nested sets children level m levels path members known =
    ground (arith, lookup-list_level_members (children_of children) members m)

module _ (sets : Sets) (levels : List Text) where
  abbrev deeper : TzValue → Result (List TzEntry)
  deeper value = list_tz_entries sets value levels

  lookup-groups_nil :
      (branches : Dict Text TzValue) {groups : List (List TzEntry)}
      → map_result (grouped deeper) branches ≡ ok groups
      → lookup [] (flatten groups) ≡ none
  lookup-groups_nil [] returned =
      subst (λ l. lookup [] (flatten l) ≡ none) (ok_injective returned) (unfold lookup in refl)
  lookup-groups_nil (c ∷ branches) returned =
      let (group, groups, first, others, same) =
        map_result-eq-ok (grouped deeper) c branches returned in
      let (entries, made, is_group) = >>=-eq-ok (deeper c.1) _ first in
      subst (λ l. lookup [] (flatten l) ≡ none) same
        (subst (λ g. lookup [] (g ++ flatten groups) ≡ none) (ok_injective is_group)
          (lookup-with_member_nil c.0 entries (flatten groups) ∙ lookup-groups_nil branches others))

  lookup-nested :
      (children : Children) (level : Text) (members path : List Text) {groups : List (List TzEntry)}
      → members_of sets level ≡ members
      → IsDistinct members
      → HasDistinctKeys (nested children)
      → ((v : TzValue) (p : List Text) (entries : List TzEntry)
          → HasDistinctKeys v
          → deeper v ≡ ok entries
          → lookup p entries ≡ value_at sets v levels p)
      → map_result (grouped deeper) (list_level_members (children_of children) members) ≡ ok groups
      → lookup path (flatten groups) ≡ value_at sets (nested children) (level ∷ levels) path
  unfolding HasDistinctKeys ReadsAt
  lookup-nested children level members [] known distinct well ih returned =
      unfold value_at in
      lookup-groups_nil (list_level_members (children_of children) members) returned
  lookup-nested children level members (m ∷ path) known distinct well ih returned =
      lookup-groups deeper (λ v. value_at sets v levels path) path m
        (list_level_members (children_of children) members)
        (list_level_members-IsDict (children_of children) members well.0 distinct)
        (All-imp (λ c well_c entries made. ih c.1 path entries well_c made)
          (list_level_members (children_of children) members)
          (All-list_level_members HasDistinctKeys (children_of children) members
            (have-All children well.1)))
        returned
      ∙ sym (value_at-nested sets children level m levels path members known)

-- The entries of a value give at each path of members the value that stands there, and none at any
-- other path, where the keys of each level are distinct, and so are the members of each set.
pub lookup-list_tz_entries :
    (sets : Sets) (value : TzValue) (levels path : List Text) {entries : List TzEntry}
    → AreDistinct sets
    → HasDistinctKeys value
    → list_tz_entries sets value levels ≡ ok entries
    → lookup path entries ≡ value_at sets value levels path
unfolding list_tz_entries value_at
lookup-list_tz_entries sets value [] path distinct well returned =
    subst (λ e. lookup path e ≡ value_at sets value [] path) (ok_injective returned)
      (unfold product in lookup-product_none sets value path)
lookup-list_tz_entries sets (nested children) (level ∷ levels) path distinct well returned =
    let (members, known, more) = >>=-eq-ok (get_set_members sets level) _ returned in
    let (groups, made, same) =
      >>=-eq-ok
        (map_result (grouped (deeper sets levels))
          (list_level_members (children_of children) members))
        _ more in
    subst (λ e. lookup path e ≡ value_at sets (nested children) (level ∷ levels) path)
      (ok_injective same)
      (lookup-nested sets levels children level members path (get_set_members-ok sets level known)
        (get_set_members-IsDistinct sets level distinct known) well
        (λ v p entries well_v made_v. lookup-list_tz_entries sets v levels p distinct well_v made_v)
        made)
lookup-list_tz_entries sets nothing (level ∷ levels) path distinct well returned =
    lookup-list_repeated_entries sets nothing (level ∷ levels) path refl returned
lookup-list_tz_entries sets (flag b) (level ∷ levels) path distinct well returned =
    lookup-list_repeated_entries sets (flag b) (level ∷ levels) path refl returned
lookup-list_tz_entries sets (numeric n) (level ∷ levels) path distinct well returned =
    lookup-list_repeated_entries sets (numeric n) (level ∷ levels) path refl returned
lookup-list_tz_entries sets (word w) (level ∷ levels) path distinct well returned =
    lookup-list_repeated_entries sets (word w) (level ∷ levels) path refl returned
lookup-list_tz_entries sets (listed l) (level ∷ levels) path distinct well returned =
    lookup-list_repeated_entries sets (listed l) (level ∷ levels) path refl returned
