-- ===== src/TzFormat/Entries.antt =====
-- The entries of a level, from those of its branches.
use tz_oss_interop.Prelude.{
  false, Option, none, some, List, [], ◌∷◌, ◌++◌, if◌then◌else◌, contains, ◌==◌, map, ◌≡◌, refl,
  ◌∙◌, subst, arith, All,
}
use tz_oss_interop.Prelude.Text.{Text, text_eq}
use tz_oss_interop.Prelude.Dict.{Dict, lookup, keys, IsDict, or_else, lookup_absent}
use tz_oss_interop.Errors.{Result, ok, ◌>>=◌, >>=-eq-ok, map_result, map_result-eq-ok, ok_injective}
use tz_oss_interop.TzFormat.{TzValue, Sets, TzEntry, with_member, flatten, product, get_set_members}
use tz_oss_interop.TzFormat.Reference.{path_eq, members_of, step_into, is_nested, value_at}

lookup-with_member-append :
    (m k : Text) (path : List Text) (entries more : List TzEntry)
    → lookup (m ∷ path) (with_member k entries ++ more)
      ≡ or_else (if k == m then lookup path entries else none) (lookup (m ∷ path) more)
unfolding lookup
lookup-with_member-append m k path [] more = ground arith
lookup-with_member-append m k path (entry ∷ entries) more =
    ground (arith, lookup-with_member-append m k path entries more)

pub lookup-with_member_nil :
    (k : Text) (entries more : List TzEntry)
    → lookup [] (with_member k entries ++ more) ≡ lookup [] more
unfolding lookup
lookup-with_member_nil k [] more = refl
lookup-with_member_nil k (entry ∷ entries) more = lookup-with_member_nil k entries more

lookup-repeat :
    (m : Text) (path : List Text) (rest : List TzEntry) (members : List Text)
    → lookup (m ∷ path) (flatten (map (λ k. with_member k rest) members))
      ≡ (if contains members m then lookup path rest else none)
unfolding lookup
lookup-repeat m path rest [] = refl
lookup-repeat m path rest (k ∷ members) = ground (
  arith,
  lookup-with_member-append m k path rest (flatten (map (λ k. with_member k rest) members)),
  lookup-repeat m path rest members,
)

pub get_set_members-ok :
    (sets : Sets) (level : Text) {members : List Text}
    → get_set_members sets level ≡ ok members
    → members_of sets level ≡ members
unfolding get_set_members members_of
get_set_members-ok sets level found = ground arith

value_at-bare :
    (sets : Sets) (value : TzValue) (level m : Text) (levels path : List Text)
    → is_nested value ≡ false
    → value_at sets value (level ∷ levels) (m ∷ path)
      ≡ (if contains (members_of sets level) m then value_at sets value levels path else none)
unfolding value_at step_into
value_at-bare sets value level m levels path bare = ground arith

pub lookup-product_none :
    (sets : Sets) (value : TzValue) (path : List Text)
    → lookup path (product value []) ≡ value_at sets value [] path
unfolding product value_at lookup
lookup-product_none sets value [] = refl
lookup-product_none sets value (m ∷ path) = refl

lookup-repeat_nil :
    (rest : List TzEntry) (members : List Text)
    → lookup [] (flatten (map (λ k. with_member k rest) members)) ≡ none
lookup-repeat_nil rest [] = unfold lookup in refl
lookup-repeat_nil rest (k ∷ members) =
    lookup-with_member_nil k rest (flatten (map (λ m. with_member m rest) members))
    ∙ lookup-repeat_nil rest members

lookup-product_cons :
    (sets : Sets) (value : TzValue) (level : Text) (levels path members : List Text)
    (lists : List (List Text))
    → is_nested value ≡ false
    → members_of sets level ≡ members
    → ((p : List Text) → lookup p (product value lists) ≡ value_at sets value levels p)
    → lookup path (product value (members ∷ lists)) ≡ value_at sets value (level ∷ levels) path
unfolding product
lookup-product_cons sets value level levels [] members lists bare known ih =
    unfold value_at in lookup-repeat_nil (product value lists) members
lookup-product_cons sets value level levels (m ∷ path) members lists bare known ih = ground (
  arith,
  lookup-repeat m path (product value lists) members,
  value_at-bare sets value level m levels path bare,
  ih path,
)

pub lookup-product :
    (sets : Sets) (value : TzValue) (levels path : List Text) {lists : List (List Text)}
    → is_nested value ≡ false
    → map_result (get_set_members sets) levels ≡ ok lists
    → lookup path (product value lists) ≡ value_at sets value levels path
lookup-product sets value [] path bare returned =
    subst (λ l. lookup path (product value l) ≡ value_at sets value [] path) (ok_injective returned)
      (lookup-product_none sets value path)
lookup-product sets value (level ∷ levels) path bare returned =
    let (members, lists, known, others, same) =
      map_result-eq-ok (get_set_members sets) level levels returned in
    subst (λ l. lookup path (product value l) ≡ value_at sets value (level ∷ levels) path) same
      (lookup-product_cons sets value level levels path members lists bare
        (get_set_members-ok sets level known) (λ p. lookup-product sets value levels p bare others))

-- The entries of a branch of a level.
abbrev pub grouped : (TzValue → Result (List TzEntry)) → Text × TzValue → Result (List TzEntry)
grouped entries_of c = entries_of c.1 >>= λ entries. ok (with_member c.0 entries)

abbrev pub read_of : (TzValue → Option TzValue) → Option TzValue → Option TzValue
read_of read none = none
read_of read (some found) = read found

-- The entries of a level, as its branches' entries in order.
module _ (entries_of : TzValue → Result (List TzEntry)) (read : TzValue → Option TzValue)
    (path : List Text) where
  -- The entries of a value at the path are what is read of it.
  unfoldable pub ReadsAt : Text × TzValue → Type 0
  ReadsAt c =
      (entries : List TzEntry) → entries_of c.1 ≡ ok entries → lookup path entries ≡ read c.1

  lookup-first :
      (m : Text) (c : Text × TzValue) (branches : Dict Text TzValue) (entries more : List TzEntry)
      → contains (keys branches) c.0 ≡ false
      → lookup path entries ≡ read c.1
      → lookup (m ∷ path) more ≡ read_of read (lookup m branches)
      → or_else (if c.0 == m then lookup path entries else none) (lookup (m ∷ path) more)
        ≡ read_of read (lookup m (c ∷ branches))
  unfolding lookup
  lookup-first m c branches entries more new here later =
      ground (arith, lookup_absent c.0 branches new, text_eq.agrees c.0 m)

  pub lookup-groups :
      (m : Text) (branches : Dict Text TzValue) {groups : List (List TzEntry)}
      → IsDict branches
      → All ReadsAt branches
      → map_result (grouped entries_of) branches ≡ ok groups
      → lookup (m ∷ path) (flatten groups) ≡ read_of read (lookup m branches)
  unfolding ReadsAt lookup
  lookup-groups m [] distinct reads returned =
      subst (λ l. lookup (m ∷ path) (flatten l) ≡ none) (ok_injective returned) refl
  lookup-groups m (c ∷ branches) distinct reads returned =
      let (group, groups, first, others, same) =
        map_result-eq-ok (grouped entries_of) c branches returned in
      let (entries, made, is_group) = >>=-eq-ok (entries_of c.1) _ first in
      subst (λ l. lookup (m ∷ path) (flatten l) ≡ read_of read (lookup m (c ∷ branches))) same
        (subst
          (λ g. lookup (m ∷ path) (g ++ flatten groups) ≡ read_of read (lookup m (c ∷ branches)))
          (ok_injective is_group)
          (lookup-with_member-append m c.0 path entries (flatten groups)
            ∙ lookup-first m c branches entries (flatten groups) distinct.0 (reads.0 entries made)
                (lookup-groups m branches distinct.1 reads.1 others)))
