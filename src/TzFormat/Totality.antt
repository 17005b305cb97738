-- ===== src/TzFormat/Totality.antt =====
-- Reading a value ends with entries wherever the set of each level is known.
use tz_oss_interop.Prelude.{
  ℕ, suc, true, some, List, [], ◌∷◌, contains, map, length, ◌≡◌, refl, ap, arith, All, All-append,
  Bool-cases, inl, inr, ◌==◌,
}
use tz_oss_interop.Prelude.Text.{Text, text_eq}
use tz_oss_interop.Prelude.Dict.{Dict, lookup, keys}
use tz_oss_interop.Errors.{Result, ok, ◌>>=◌, map_result}
use tz_oss_interop.TzFormat.{
  TzValue, nested, nothing, flag, numeric, word, listed, children_of, Sets, TzEntry, with_member,
  flatten, product, set_of_level, get_set_members, list_level_members, list_repeated_entries,
  list_tz_entries,
}

-- The set of each level is among the sets.
abbrev pub AreKnown : Sets → List Text → Type 0
AreKnown sets levels = All (λ level. contains (keys sets) (set_of_level level) ≡ true) levels

-- The keys of an entry are as many as the levels.
abbrev pub HasLength : ℕ → TzEntry → Type 0
HasLength n entry = length entry.0 ≡ n

with_member-HasLength :
    (n : ℕ) (m : Text) (entries : List TzEntry)
    → All (HasLength n) entries
    → All (HasLength (suc n)) (with_member m entries)
with_member-HasLength n m [] h = tt
with_member-HasLength n m (e ∷ entries) h = (ap suc h.0, with_member-HasLength n m entries h.1)

repeat-HasLength :
    (n : ℕ) (rest : List TzEntry) (members : List Text)
    → All (HasLength n) rest
    → All (HasLength (suc n)) (flatten (map (λ m. with_member m rest) members))
repeat-HasLength n rest [] h = tt
repeat-HasLength n rest (m ∷ members) h =
    All-append _ _ _ (with_member-HasLength n m rest h) (repeat-HasLength n rest members h)

Returns : ℕ → Result (List TzEntry) → Type 0
Returns n r = (entries : List TzEntry) × (r ≡ ok entries) × All (HasLength n) entries

lookup_present {ℓ} :
    {V : Type ℓ} (k : Text) (d : Dict Text V)
    → contains (keys d) k ≡ true
    → (value : V) × (lookup k d ≡ some value)
unfolding lookup
lookup_present k [] h = absurd (cc h)
lookup_present k ((j, v) ∷ d) h = elim (Bool-cases (j == k)) [
  | inl same ↦ (v, rw same refl)
  | inr other ↦ let (value, found) = lookup_present k d (ground arith) in (value, rw other found)
]

get_set_members-known :
    (sets : Sets) (level : Text)
    → contains (keys sets) (set_of_level level) ≡ true
    → (members : List Text) × (get_set_members sets level ≡ ok members)
unfolding get_set_members
get_set_members-known sets level known =
    let (members, found) = lookup_present (set_of_level level) sets known in
    (members, rw (found, get_set_members) refl)

known_lists :
    (sets : Sets) (value : TzValue) (levels : List Text)
    → AreKnown sets levels
    → (lists : List (List Text)) × (map_result (get_set_members sets) levels ≡ ok lists)
      × All (HasLength (length levels)) (product value lists)
unfolding product
known_lists sets value [] known = ([], refl, (refl, tt))
known_lists sets value (level ∷ levels) known =
    let (members, found) = get_set_members-known sets level known.0 in
    let (lists, rest, counted) = known_lists sets value levels known.1 in
    (
      members ∷ lists,
      rw (found, ◌>>=◌, rest) refl,
      repeat-HasLength (length levels) (product value lists) members counted,
    )

list_repeated_entries-Returns :
    (sets : Sets) (value : TzValue) (levels : List Text)
    → AreKnown sets levels
    → Returns (length levels) (list_repeated_entries sets value levels)
unfolding Returns list_repeated_entries
list_repeated_entries-Returns sets value levels known =
    let (lists, found, counted) = known_lists sets value levels known in
    (product value lists, rw found refl, counted)

-- The entries of the branches, where those of each branch return.
groups-Returns :
    (entries_of : TzValue → Result (List TzEntry)) (n : ℕ) (branches : Dict Text TzValue)
    → ((value : TzValue) → Returns n (entries_of value))
    → (groups : List (List TzEntry)) × (map_result
          (λ c. entries_of c.1 >>= λ entries. ok (with_member c.0 entries))
          branches
        ≡ ok groups)
      × All (HasLength (suc n)) (flatten groups)
unfolding Returns
groups-Returns entries_of n [] each = ([], refl, tt)
groups-Returns entries_of n (c ∷ branches) each =
    let (entries, made, counted) = each c.1 in
    let (groups, rest, all_counted) = groups-Returns entries_of n branches each in
    (
      with_member c.0 entries ∷ groups,
      rw (made, ◌>>=◌, rest) refl,
      All-append _ _ _ (with_member-HasLength n c.0 entries counted) all_counted,
    )

-- Where the set of each level is known, reading a value returns entries, and each has one member for
-- each level.
pub list_tz_entries-Returns :
    (sets : Sets) (value : TzValue) (levels : List Text)
    → AreKnown sets levels
    → (entries : List TzEntry) × (list_tz_entries sets value levels ≡ ok entries)
      × All (HasLength (length levels)) entries
unfolding list_tz_entries Returns
list_tz_entries-Returns sets value [] known = (([], value) ∷ [], refl, (refl, tt))
list_tz_entries-Returns sets (nested children) (level ∷ levels) known =
    let (members, found) = get_set_members-known sets level known.0 in
    let (groups, made, counted) =
      groups-Returns (λ v. list_tz_entries sets v levels) (length levels)
        (list_level_members (children_of children) members)
        (λ v. list_tz_entries-Returns sets v levels known.1) in
    (flatten groups, rw (found, ◌>>=◌, made) refl, counted)
list_tz_entries-Returns sets nothing (level ∷ levels) known =
    list_repeated_entries-Returns sets nothing (level ∷ levels) known
list_tz_entries-Returns sets (flag b) (level ∷ levels) known =
    list_repeated_entries-Returns sets (flag b) (level ∷ levels) known
list_tz_entries-Returns sets (numeric n) (level ∷ levels) known =
    list_repeated_entries-Returns sets (numeric n) (level ∷ levels) known
list_tz_entries-Returns sets (word w) (level ∷ levels) known =
    list_repeated_entries-Returns sets (word w) (level ∷ levels) known
list_tz_entries-Returns sets (listed l) (level ∷ levels) known =
    list_repeated_entries-Returns sets (listed l) (level ∷ levels) known
