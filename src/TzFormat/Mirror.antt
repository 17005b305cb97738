-- ===== src/TzFormat/Mirror.antt =====
-- What `build_region_pairs` gives for each direction between two regions.
use tz_oss_interop.Prelude.{
  true, Option, none, some, [], ◌∷◌, ◌++◌, if◌then◌else◌, ◌==◌, ◌&&◌, map, ◌≡◌, refl, sym, ◌∙◌, ap,
  arith, pair_eq, Option-cases, Bool-cases, inl, inr, subst, eq_of_==,
}
use tz_oss_interop.Prelude.Text.{Text, text_eq}
use tz_oss_interop.Prelude.Dict.{Dict, lookup, IsDict, or_else, lookup_absent}
use tz_oss_interop.TzFormat.{
  TzValue, nested, nothing, flag, numeric, word, listed, Children, done, child, children_of,
}
use tz_oss_interop.TzFormat.RegionPairs.{
  set_default, add_reverse, change_child, mirror_pair, pairs_under, list_region_pairs, mirror_all,
  build_bare_value, mirror_value, build_region_pairs, inner_at, pair_at, is_level, AreLevels,
}

lookup-set_default :
    (key j : Text) (value : TzValue) (d : Children)
    → lookup j (children_of (set_default key value d))
      ≡ or_else (lookup j (children_of d)) (if key == j then some value else none)
unfolding lookup set_default
lookup-set_default key j value done = ground arith
lookup-set_default key j value (child k w rest) = ground (
  arith,
  lookup-set_default key j value rest,
  text_eq.agrees k key,
  text_eq.agrees k j,
  text_eq.agrees key j,
)

abbrev map_value : (TzValue → TzValue) → Option TzValue → Option TzValue
map_value f none = none
map_value f (some v) = some (f v)

lookup-change_child :
    (key j : Text) (change : TzValue → TzValue) (d : Children)
    → lookup j (children_of (change_child key change d))
      ≡ (if key == j then map_value change (lookup j (children_of d)) else lookup j (children_of d))
unfolding lookup change_child
lookup-change_child key j change done = ground arith
lookup-change_child key j change (child k w rest) = ground (
  arith,
  lookup-change_child key j change rest,
  text_eq.agrees k key,
  text_eq.agrees k j,
  text_eq.agrees key j,
)

lookup-AreLevels :
    (j : Text) (d : Children) {value : TzValue}
    → AreLevels d
    → lookup j (children_of d) ≡ some value
    → is_level value ≡ true
unfolding lookup AreLevels
lookup-AreLevels j done h found = absurd (cc found)
lookup-AreLevels j (child k w rest) h found = elim (Bool-cases (k == j)) [
  | inl same ↦ ground arith
  | inr other ↦ lookup-AreLevels j rest h.1 (ground arith)
]

set_default-AreLevels :
    (key : Text) (value : TzValue) (d : Children)
    → is_level value ≡ true
    → AreLevels d
    → AreLevels (set_default key value d)
unfolding set_default AreLevels
set_default-AreLevels key value done h levels = (h, tt)
set_default-AreLevels key value (child k w rest) h levels =
    ground (arith, set_default-AreLevels key value rest h levels.1)

add_reverse-is_level :
    (region : Text) (rest value : TzValue)
    → is_level value ≡ true
    → is_level (add_reverse region rest value) ≡ true
unfolding add_reverse
add_reverse-is_level region rest value h = ground arith

change_child-AreLevels :
    (key : Text) (region : Text) (value : TzValue) (d : Children)
    → AreLevels d
    → AreLevels (change_child key (add_reverse region value) d)
unfolding change_child AreLevels
change_child-AreLevels key region value done levels = tt
change_child-AreLevels key region value (child k w rest) levels = ground (
  arith,
  change_child-AreLevels key region value rest levels.1,
  add_reverse-is_level region value w levels.0,
)

inner_at-add_reverse :
    (b region : Text) (rest value : TzValue)
    → is_level value ≡ true
    → inner_at b (some (add_reverse region rest value))
      ≡ or_else (inner_at b (some value)) (if region == b then some rest else none)
unfolding inner_at add_reverse
inner_at-add_reverse b region rest (nested others) h = lookup-set_default region b rest others
inner_at-add_reverse b region rest nothing h = absurd (cc h)
inner_at-add_reverse b region rest (flag f) h = absurd (cc h)
inner_at-add_reverse b region rest (numeric n) h = absurd (cc h)
inner_at-add_reverse b region rest (word w) h = absurd (cc h)
inner_at-add_reverse b region rest (listed l) h = absurd (cc h)

inner_at-empty : (b : Text) → inner_at b (some (nested done)) ≡ none
unfolding inner_at lookup
inner_at-empty b = refl

inner_at-none : (b : Text) → inner_at b none ≡ none
unfolding inner_at
inner_at-none b = refl

pair_at-mirror_pair :
    (a b region other : Text) (rest : TzValue) (mirrored : Children)
    → AreLevels mirrored
    → pair_at a b (mirror_pair ((region, other), rest) mirrored)
      ≡ or_else (pair_at a b mirrored) (if region == b && other == a then some rest else none)
unfolding pair_at mirror_pair
pair_at-mirror_pair a b region other rest mirrored levels =
    elim (Option-cases (lookup a (children_of mirrored))) [
      | inl absent ↦ ground (
        arith,
        lookup-change_child other a (add_reverse region rest)
            (set_default other (nested done) mirrored),
        lookup-set_default other a (nested done) mirrored,
        inner_at-add_reverse b region rest (nested done) refl,
        inner_at-empty b,
        inner_at-none b,
      )
      | inr (held, present) ↦ ground (
        arith,
        lookup-change_child other a (add_reverse region rest)
            (set_default other (nested done) mirrored),
        lookup-set_default other a (nested done) mirrored,
        inner_at-add_reverse b region rest held (lookup-AreLevels a mirrored levels present),
      )
    ]

mirror_pair-AreLevels :
    (region other : Text) (rest : TzValue) (mirrored : Children)
    → AreLevels mirrored
    → AreLevels (mirror_pair ((region, other), rest) mirrored)
unfolding mirror_pair
mirror_pair-AreLevels region other rest mirrored levels =
    change_child-AreLevels other region rest _
      (set_default-AreLevels other (nested done) mirrored refl levels)

pair_at-mirror_all :
    (a b : Text) (pairs : Dict (Text × Text) TzValue) (mirrored : Children)
    → AreLevels mirrored
    → pair_at a b (mirror_all pairs mirrored) ≡ or_else (pair_at a b mirrored) (lookup (b, a) pairs)
unfolding mirror_all lookup
pair_at-mirror_all a b [] mirrored levels = ground arith
pair_at-mirror_all a b (((region, other), rest) ∷ pairs) mirrored levels = ground (
  arith,
  pair_at-mirror_all a b pairs (mirror_pair ((region, other), rest) mirrored)
      (mirror_pair-AreLevels region other rest mirrored levels),
  pair_at-mirror_pair a b region other rest mirrored levels,
)

lookup-region_pairs :
    (region a b : Text) (others : Children) (more : Dict (Text × Text) TzValue)
    → lookup (a, b) (map (λ o. ((region, o.0), o.1)) (children_of others) ++ more)
      ≡ or_else (if region == a then lookup b (children_of others) else none) (lookup (a, b) more)
unfolding lookup
lookup-region_pairs region a b done more = ground arith
lookup-region_pairs region a b (child k w rest) more =
    ground (arith, lookup-region_pairs region a b rest more)

lookup-pairs_under :
    (region a b : Text) (others : TzValue) (more : Dict (Text × Text) TzValue)
    → lookup (a, b) (pairs_under region others ++ more)
      ≡ or_else (if region == a then inner_at b (some others) else none) (lookup (a, b) more)
unfolding pairs_under inner_at
lookup-pairs_under region a b (nested others) more = lookup-region_pairs region a b others more
lookup-pairs_under region a b nothing more = ground arith
lookup-pairs_under region a b (flag f) more = ground arith
lookup-pairs_under region a b (numeric n) more = ground arith
lookup-pairs_under region a b (word w) more = ground arith
lookup-pairs_under region a b (listed l) more = ground arith

lookup-list_region_pairs :
    (a b : Text) (pairs : Children)
    → IsDict (children_of pairs)
    → lookup (a, b) (list_region_pairs pairs) ≡ pair_at a b pairs
unfolding list_region_pairs pair_at lookup
lookup-list_region_pairs a b done distinct = unfold inner_at in refl
lookup-list_region_pairs a b (child region others rest) distinct = elim (Bool-cases (region == a)) [
  | inl same ↦ ground (
    arith,
    lookup-pairs_under region a b others (list_region_pairs rest),
    lookup-list_region_pairs a b rest distinct.1,
    lookup_absent region (children_of rest) distinct.0,
    eq_of_== region a same,
    inner_at-none b,
  )
  | inr other ↦ ground (
    arith,
    lookup-pairs_under region a b others (list_region_pairs rest),
    lookup-list_region_pairs a b rest distinct.1,
  )
]

mirror_value-nested :
    (pairs : Children) {mirrored : Children}
    → mirror_value (nested pairs) ≡ nested mirrored
    → mirror_all (list_region_pairs pairs) pairs ≡ mirrored
unfolding mirror_value
mirror_value-nested pairs made = cc made

-- Where each region of a value states a dict of other regions, its keys once, the value with its
-- region pairs gives for each direction what the value states for it and, where it states
-- nothing, what it states for the opposite direction.
pub pair_at-build_region_pairs :
    (value : TzValue) (pairs : Children) (a b : Text) {mirrored : Children}
    → build_bare_value value ≡ nested pairs
    → AreLevels pairs
    → IsDict (children_of pairs)
    → build_region_pairs value ≡ nested mirrored
    → pair_at a b mirrored ≡ or_else (pair_at a b pairs) (pair_at b a pairs)
unfolding build_region_pairs
pair_at-build_region_pairs value pairs a b bare levels distinct made =
    subst (λ m. pair_at a b m ≡ or_else (pair_at a b pairs) (pair_at b a pairs))
      (mirror_value-nested pairs (ap mirror_value (sym bare) ∙ made))
      (ground (
        arith,
        pair_at-mirror_all a b (list_region_pairs pairs) pairs levels,
        lookup-list_region_pairs b a pairs distinct,
      ))
