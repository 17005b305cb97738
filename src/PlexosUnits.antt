-- ===== src/PlexosUnits.antt =====
-- interop/plugins/shared/plexos_units.py: the unit that a property of PLEXOS states, and the one that
-- interop reads it in.
pub mod Tables
pub mod Conversions
use tz_oss_interop.Prelude.{
  ℕ, Bool, true, false, Option, none, some, List, [], ◌∷◌, ◌++◌, if◌then◌else◌, contains, ◌==◌,
  ◌||◌, ◌&&◌, not, map, ltb, leb, nat_beq, Eq, pair_eq,
}
use tz_oss_interop.Prelude.Text.{Text, text_eq, codes, split, join}
use tz_oss_interop.Prelude.Dict.{Dict, lookup, insert}
use tz_oss_interop.Errors.{Result, ok, err, ◌>>=◌, missing_key}
use tz_oss_interop.PlexosUnits.Tables.{
  Numbers, spellings, canonical_units, factors_to_canonical, one,
}

abbrev within : ℕ → ℕ → ℕ → Bool
within low high c = leb low c && leb c high

abbrev is_letter : ℕ → Bool
is_letter c = within b'A' b'Z' c || within b'a' b'z' c

-- ASCII's part of `[^\w\s/]`.
abbrev is_ascii_symbol : ℕ → Bool
is_ascii_symbol c = not (
    is_letter c
    || within b'0' b'9' c
    || nat_beq c b'_'
    || nat_beq c b'/'
    || within 9 13 c
    || within 28 32 c)

-- `choose_canonical_unit`
unfoldable pub choose_canonical_unit : Text → Text → Option Text
choose_canonical_unit collection property_name = lookup (collection, property_name) canonical_units

unfoldable pub spelled : Text → Text
spelled part = elim (lookup part spellings) [ none ↦ part | some written ↦ written ]

abbrev pub dollars : Text
dollars = codes "$"

unfoldable pub starts_with_dollars : Text → Bool
starts_with_dollars [] = false
starts_with_dollars (c ∷ unit) = nat_beq c b'$'

-- `resolve_generic_energy_unit`: `unit.replace("~", energy)`.
unfoldable pub replace_tilde : Text → Text → Text
replace_tilde energy [] = []
replace_tilde energy (c ∷ unit) =
    let rest = replace_tilde energy unit in if nat_beq c b'~' then energy ++ rest else c ∷ rest

unfoldable pub resolve_generic_energy_unit : Text → Option Text → Text
resolve_generic_energy_unit unit none = replace_tilde (codes "GJ") unit
resolve_generic_energy_unit unit (some setting) =
    replace_tilde (if setting == codes "Imperial" then codes "MMBTU" else codes "GJ") unit

-- `StatedValue`
pub record StatedValue (N : Type 0) : Type 0 where
  pub value : Option N
  pub unit : Option Text
  pub collection : Text
  pub property_name : Text

-- `UnitConversions`, without the units that it looks up. A set is a list with no member twice.
pub record UnitConversions : Type 0 where
  pub unreadable : List (Text × Text)
  pub unconverted_profiles : List (Text × Text)

-- `s.add(member)`
abbrev pub add_once : Text × Text → List (Text × Text) → List (Text × Text)
add_once member members = if contains members member then members else members ++ member ∷ []

-- `is_other_symbol` tells of a character beyond ASCII whether `[^\w\s/]` matches it.
module _ {N : Type 0} (ops : Numbers N) (is_other_symbol : ℕ → Bool) where
  abbrev is_symbol : ℕ → Bool
  is_symbol c = if ltb c 128 then is_ascii_symbol c else is_other_symbol c

  -- `_CURRENCY_PATTERN.sub(UNIT_DOLLARS, written, count=1)`: up to two letters, then a symbol.
  unfoldable pub in_dollars : Text → Text
  in_dollars (a ∷ b ∷ c ∷ rest) =
      if is_letter a && (is_letter b && is_symbol c)
      then dollars ++ rest
      else if is_letter a && is_symbol b
      then dollars ++ c ∷ rest
      else if is_symbol a
      then dollars ++ b ∷ c ∷ rest
      else a ∷ b ∷ c ∷ rest
  in_dollars (a ∷ b ∷ []) =
      if is_letter a && is_symbol b
      then dollars
      else if is_symbol a
      then dollars ++ b ∷ []
      else a ∷ b ∷ []
  in_dollars (a ∷ []) = if is_symbol a then dollars else a ∷ []
  in_dollars [] = []

  -- `_as_written_here`
  unfoldable pub as_written_here : Text → Text → Text
  as_written_here stated_unit canonical_unit =
      let written = join b'/' (map spelled (split b'/' stated_unit)) in
      if starts_with_dollars canonical_unit then in_dollars written else written

  -- `conversion_factor`
  unfoldable pub conversion_factor : Text → Text → Result (Option N)
  conversion_factor stated_unit canonical_unit =
      elim (lookup canonical_unit (factors_to_canonical ops)) [
        | none ↦ err missing_key
        | some factors ↦ ok (lookup (as_written_here stated_unit canonical_unit) factors)
      ]

  abbrev note_unreadable : Option N → Text × Text → UnitConversions → Option N × UnitConversions
  note_unreadable none noted conversions =
      (none, record conversions { unreadable = add_once noted conversions.unreadable })
  note_unreadable (some factor) noted conversions = (some factor, conversions)

  -- `UnitConversions._factor`
  unfoldable pub factor_between :
      Text → Option Text → Option Text → UnitConversions → Result (Option N × UnitConversions)
  factor_between property_name (some unit) (some canonical) conversions =
      conversion_factor unit canonical >>= λ factor.
      ok (note_unreadable factor (property_name, unit) conversions)
  factor_between property_name _ _ conversions = ok (none, conversions)

  unfoldable pub factor_of : StatedValue N → UnitConversions → Result (Option N × UnitConversions)
  factor_of stated =
      factor_between stated.property_name stated.unit
        (choose_canonical_unit stated.collection stated.property_name)

  abbrev scaled : Option N → Option N → Option N
  scaled value none = value
  scaled none (some factor) = none
  scaled (some value) (some factor) = some (ops.times value factor)

  -- `UnitConversions.convert`
  unfoldable pub convert : StatedValue N → UnitConversions → Result (Option N × UnitConversions)
  convert stated conversions =
      factor_of stated conversions >>= λ found. ok (scaled stated.value found.0, found.1)

  unfoldable pub note_between : Option N → Option Text → Text → UnitConversions → UnitConversions
  note_between (some factor) (some unit) property_name conversions =
      if ops.equal factor (one ops) then conversions else record conversions {
        unconverted_profiles = add_once (property_name, unit) conversions.unconverted_profiles;
      }
  note_between _ _ property_name conversions = conversions

  -- `UnitConversions.note_profile`
  unfoldable pub note_profile : StatedValue N → UnitConversions → Result UnitConversions
  note_profile stated conversions = factor_of stated conversions >>= λ found.
      ok (note_between found.0 stated.unit stated.property_name found.1)
