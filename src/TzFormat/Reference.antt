-- ===== src/TzFormat/Reference.antt =====
-- The reference for the entries of a value: the value that stands at a path of members, read one
-- level at a time.
use tz_oss_interop.Prelude.{
  Bool, true, false, Option, none, some, List, [], ◌∷◌, if◌then◌else◌, contains, ◌==◌, ◌&&◌, ◌≡◌,
  arith, Eq, ◌↔◌,
}
use tz_oss_interop.Prelude.Text.{Text, text_eq}
use tz_oss_interop.Prelude.Dict.{lookup, IsDict, or_else}
use tz_oss_interop.TzFormat.{
  wildcard, TzValue, nested, Children, done, child, children_of, Sets, set_of_level,
}

-- Paths are compared member by member.
abbrev pub path_beq : List Text → List Text → Bool
path_beq [] [] = true
path_beq [] (n ∷ q) = false
path_beq (m ∷ p) [] = false
path_beq (m ∷ p) (n ∷ q) = m == n && path_beq p q

pub path_beq_iff : (p q : List Text) → (path_beq p q ≡ true) ↔ (p ≡ q)
path_beq_iff [] [] = ground arith
path_beq_iff [] (n ∷ q) = ground arith
path_beq_iff (m ∷ p) [] = ground arith
path_beq_iff (m ∷ p) (n ∷ q) = ground (arith, path_beq_iff p q, text_eq.agrees m n)

instance abbrev pub path_eq : Eq (List Text)
path_eq = record { same = path_beq; agrees = path_beq_iff }

-- The members of the set of a level.
unfoldable pub members_of : Sets → Text → List Text
members_of sets level = elim (lookup (set_of_level level) sets) [ none ↦ [] | some ms ↦ ms ]

-- What a value gives for a member of a level: a nested value that of the member's key, or else that
-- of the wildcard if the member is in the set, and any other value itself if the member is.
unfoldable pub step_into : TzValue → List Text → Text → Option TzValue
step_into (nested children) members m =
    or_else (if m == wildcard then none else lookup m (children_of children))
      (if contains members m then lookup wildcard (children_of children) else none)
step_into value members m = if contains members m then some value else none

abbrev pub is_nested : TzValue → Bool
is_nested (nested children) = true
is_nested value = false

-- The value at a path of members, one for each level.
unfoldable pub value_at : Sets → TzValue → List Text → List Text → Option TzValue
value_at sets value [] [] = some value
value_at sets value [] (m ∷ path) = none
value_at sets value (level ∷ levels) [] = none
value_at sets value (level ∷ levels) (m ∷ path) = elim (step_into value (members_of sets level) m) [
  | none ↦ none
  | some found ↦ value_at sets found levels path
]

-- Every level of a JSON value has its keys once.
unfoldable mutual
  pub HasDistinctKeys : TzValue → Type 0
  HasDistinctKeys (nested children) = IsDict (children_of children) × HaveDistinctKeys children
  HasDistinctKeys _ = Unit

  pub HaveDistinctKeys : Children → Type 0
  HaveDistinctKeys done = Unit
  HaveDistinctKeys (child key value rest) = HasDistinctKeys value × HaveDistinctKeys rest
