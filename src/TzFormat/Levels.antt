-- ===== src/TzFormat/Levels.antt =====
-- What a level of a value gives for a member: its own key first, the wildcard for the other members
-- of the set.
use tz_oss_interop.Prelude.{
  Bool, true, false, Option, none, some, List, [], ◌∷◌, ◌++◌, if◌then◌else◌, contains, not, ◌==◌,
  ◌&&◌, ◌||◌, map, keep_if, ◌≡◌, refl, sym, arith, ==_refl, eq_of_==, Option-cases, Bool-cases, inl,
  inr, subst, All, All-append,
}
use tz_oss_interop.Prelude.Text.{Text, text_eq}
use tz_oss_interop.Prelude.Dict.{lookup-All, Dict, lookup, keys, IsDict, or_else}
use tz_oss_interop.TzFormat.{wildcard, named_in, list_level_members}

-- No member stands twice.
abbrev pub IsDistinct : List Text → Type 0
IsDistinct [] = Unit
IsDistinct (m ∷ ms) = (contains ms m ≡ false) × IsDistinct ms

module _ {ℓ} {V : Type ℓ} where
  contains-keys-keep_if :
      (p : Text × V → Bool) (d : Dict Text V) (k : Text)
      → contains (keys d) k ≡ false
      → contains (keys (keep_if p d)) k ≡ false
  contains-keys-keep_if p [] k h = refl
  contains-keys-keep_if p (c ∷ d) k h = ground (arith, contains-keys-keep_if p d k)

  keep_if-IsDict : (p : Text × V → Bool) (d : Dict Text V) → IsDict d → IsDict (keep_if p d)
  keep_if-IsDict p [] h = tt
  keep_if-IsDict p (c ∷ d) h = ground (arith, keep_if-IsDict p d, contains-keys-keep_if p d c.0)

  lookup-append :
      (k : Text) (a b : Dict Text V) → lookup k (a ++ b) ≡ or_else (lookup k a) (lookup k b)
  unfolding lookup
  lookup-append k [] b = refl
  lookup-append k (c ∷ a) b = ground (arith, lookup-append k a b)

  contains-keys-append :
      (k : Text) (a b : Dict Text V)
      → contains (keys (a ++ b)) k ≡ (contains (keys a) k || contains (keys b) k)
  contains-keys-append k [] b = refl
  contains-keys-append k (c ∷ a) b = ground (arith, contains-keys-append k a b)

  -- The entries of a wildcard, for the members that are not among the names.
  filled : List Text → V → List Text → Dict Text V
  filled names value members = map (λ m. (m, value)) (keep_if (λ m. not (contains names m)) members)

  contains-keys-filled :
      (names : List Text) (value : V) (members : List Text) (k : Text)
      → contains (keys (filled names value members)) k
        ≡ (not (contains names k) && contains members k)
  unfolding filled
  contains-keys-filled names value [] k = ground arith
  contains-keys-filled names value (m ∷ members) k = elim (Bool-cases (m == k)) [
    | inl same ↦ ground (arith, contains-keys-filled names value members k, eq_of_== m k same)
    | inr other ↦ ground (arith, contains-keys-filled names value members k)
  ]

  lookup-filled :
      (names : List Text) (value : V) (members : List Text) (k : Text)
      → lookup k (filled names value members)
        ≡ (if not (contains names k) && contains members k then some value else none)
  unfolding filled lookup
  lookup-filled names value [] k = ground arith
  lookup-filled names value (m ∷ members) k = elim (Bool-cases (m == k)) [
    | inl same ↦ ground (arith, lookup-filled names value members k, eq_of_== m k same)
    | inr other ↦ ground (arith, lookup-filled names value members k)
  ]

  filled-IsDict :
      (names : List Text) (value : V) (members : List Text)
      → IsDistinct members
      → IsDict (filled names value members)
  unfolding filled
  filled-IsDict names value [] h = tt
  filled-IsDict names value (m ∷ members) h =
      ground (arith, filled-IsDict names value members, contains-keys-filled names value members m)

  append_filled-IsDict :
      (names : List Text) (value : V) (members : List Text) (d : Dict Text V)
      → IsDict d
      → IsDistinct members
      → ((k : Text) → contains (keys d) k ≡ true → contains names k ≡ true)
      → IsDict (d ++ filled names value members)
  append_filled-IsDict names value members [] h distinct named =
      filled-IsDict names value members distinct
  append_filled-IsDict names value members (c ∷ d) h distinct named = ground (
    arith,
    append_filled-IsDict names value members d h.1 distinct (λ k in_d. named k (ground arith)),
    contains-keys-append c.0 d (filled names value members),
    contains-keys-filled names value members c.0,
    named c.0 (ground (arith, ==_refl c.0)),
  )

  lookup-named_in :
      (k : Text) (d : Dict Text V)
      → lookup k (named_in d) ≡ (if k == wildcard then none else lookup k d)
  unfolding lookup
  lookup-named_in k [] = ground arith
  lookup-named_in k (c ∷ d) = ground (
    arith,
    lookup-named_in k d,
    text_eq.agrees c.0 k,
    text_eq.agrees c.0 wildcard,
    text_eq.agrees k wildcard,
  )

  is_known : Option V → Bool
  is_known none = false
  is_known (some v) = true

  contains-keys-lookup : (k : Text) (d : Dict Text V) → contains (keys d) k ≡ is_known (lookup k d)
  unfolding lookup is_known
  contains-keys-lookup k [] = refl
  contains-keys-lookup k (c ∷ d) = ground (arith, contains-keys-lookup k d)

  lookup-both :
      (k : Text) (d : Dict Text V) (value : V) (members : List Text)
      → lookup k (d ++ filled (keys d) value members)
        ≡ or_else (lookup k d) (if contains members k then some value else none)
  unfolding is_known
  lookup-both k d value members = ground (
    arith,
    lookup-append k d (filled (keys d) value members),
    lookup-filled (keys d) value members k,
    contains-keys-lookup k d,
  )

  -- A member gets the value of its own key and, where it has none and is a member of the set, the
  -- value of the wildcard.
  pub lookup-list_level_members :
      (level : Dict Text V) (members : List Text) (m : Text)
      → lookup m (list_level_members level members)
        ≡ or_else
            (if m == wildcard then none else lookup m level)
            (if contains members m then lookup wildcard level else none)
  unfolding list_level_members filled
  lookup-list_level_members level members m = elim (Option-cases (lookup wildcard level)) [
    | inl absent ↦ ground (arith, lookup-named_in m level)
    | inr (value, present) ↦
        ground (arith, lookup-both m (named_in level) value members, lookup-named_in m level)
  ]

  list_level_members-absent :
      (level : Dict Text V) (members : List Text)
      → lookup wildcard level ≡ none
      → list_level_members level members ≡ named_in level
  unfolding list_level_members
  list_level_members-absent level members absent = rw (absent, list_level_members) refl

  list_level_members-present :
      (level : Dict Text V) (members : List Text) {value : V}
      → lookup wildcard level ≡ some value
      → list_level_members level members
        ≡ named_in level ++ filled (keys (named_in level)) value members
  unfolding list_level_members filled
  list_level_members-present level members present = rw (present, list_level_members) refl

  -- No member gets a value twice.
  pub list_level_members-IsDict :
      (level : Dict Text V) (members : List Text)
      → IsDict level
      → IsDistinct members
      → IsDict (list_level_members level members)
  list_level_members-IsDict level members h distinct = elim (Option-cases (lookup wildcard level)) [
    | inl absent ↦
        subst IsDict (sym (list_level_members-absent level members absent))
          (keep_if-IsDict _ level h)
    | inr (value, present) ↦ subst IsDict (sym (list_level_members-present level members present)) (
        append_filled-IsDict (keys (named_in level)) value members (named_in level)
          (keep_if-IsDict _ level h) distinct (λ k here. here))
  ]

All-keep_if {ℓ μ} :
    {A : Type ℓ} (Q : A → Type μ) (p : A → Bool) (xs : List A) → All Q xs → All Q (keep_if p xs)
All-keep_if Q p [] h = tt
All-keep_if Q p (x ∷ xs) h =
    elim (p x) as (λ b. All Q (if b then x ∷ keep_if p xs else keep_if p xs)) [
      | true ↦ (h.0, All-keep_if Q p xs h.1)
      | false ↦ All-keep_if Q p xs h.1
    ]

All-fill {ℓ μ} :
    {V : Type ℓ} (Q : V → Type μ) (value : V) (members : List Text)
    → Q value
    → All (λ (c : Text × V). Q c.1) (map (λ m. (m, value)) members)
All-fill Q value [] h = tt
All-fill Q value (m ∷ members) h = (h, All-fill Q value members h)

-- What holds of each value of a level holds of what the level gives to its members.
pub All-list_level_members {ℓ μ} :
    {V : Type ℓ} (Q : V → Type μ) (level : Dict Text V) (members : List Text)
    → All (λ c. Q c.1) level
    → All (λ c. Q c.1) (list_level_members level members)
unfolding filled
All-list_level_members Q level members h = elim (Option-cases (lookup wildcard level)) [
  | inl absent ↦
      subst (All (λ c. Q c.1)) (sym (list_level_members-absent level members absent))
        (All-keep_if _ _ level h)
  | inr (value, present) ↦
      subst (All (λ c. Q c.1)) (sym (list_level_members-present level members present)) (
        All-append _ (named_in level) _ (All-keep_if _ _ level h)
          (All-fill Q value _ (lookup-All Q wildcard level h present)))
]
