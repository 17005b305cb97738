-- ===== src/PlexosUnits/Conversions.antt =====
-- What a conversion gives and what it notes.
use mathlib.Core.Option
use tz_oss_interop.Prelude.{
  ℕ, Bool, true, Option, none, some, List, [], ◌∷◌, contains, all, All, ◌≡◌, refl, inl, inr, arith,
  pair_eq, all-All, contains-All, All-imp, Option-cases,
}
use tz_oss_interop.Prelude.Text.{Text, text_eq, text_beq, codes, split}
use tz_oss_interop.Prelude.Dict.{lookup, lookup-All}
use tz_oss_interop.Errors.{ok, ◌>>=◌}
use tz_oss_interop.PlexosUnits.Tables.{Numbers, canonical_units, factors_to_canonical, one}
use tz_oss_interop.PlexosUnits.{
  choose_canonical_unit, spelled, starts_with_dollars, StatedValue, UnitConversions, add_once,
  in_dollars, as_written_here, conversion_factor, note_unreadable, factor_between, factor_of,
  scaled, convert,
}

-- The units of `CANONICAL_UNIT`, each once.
abbrev units : List Text
units =
    codes "$"
    ∷ codes "$/GJ"
    ∷ codes "$/MW"
    ∷ codes "$/MW/yr"
    ∷ codes "$/MWh"
    ∷ codes "$/tonne"
    ∷ codes "GJ"
    ∷ codes "GJ/MWh"
    ∷ codes "GJ/h"
    ∷ codes "MW"
    ∷ codes "MW/min"
    ∷ codes "MWh"
    ∷ codes "h"
    ∷ codes "kV"
    ∷ codes "kg/GJ"
    ∷ codes "km"
    ∷ codes "yr"
    ∷ []

rows_in_units : all (λ row. contains units row.1) canonical_units ≡ true
unfolding text_beq
rows_in_units = refl

module _ {N : Type 0} (ops : Numbers N) (is_other_symbol : ℕ → Bool) where
  -- A unit reads as itself, at a factor of one.
  abbrev ReadsItself : Text → Type 0
  ReadsItself unit = conversion_factor ops is_other_symbol unit unit ≡ ok (some (one ops))

  units-ReadsItself : All ReadsItself units
  unfolding conversion_factor as_written_here in_dollars starts_with_dollars spelled split lookup
      text_beq
  units-ReadsItself = (
    refl,
    (
      refl,
      (
        refl,
        (
          refl,
          (
            refl,
            (
              refl,
              (
                refl,
                (refl, (refl, (refl, (refl, (refl, (refl, (refl, (refl, (refl, (refl, tt)))))))))),
              ),
            ),
          ),
        ),
      ),
    ),
  )

  chosen-ReadsItself :
      (collection property_name : Text) {unit : Text}
      → choose_canonical_unit collection property_name ≡ some unit
      → ReadsItself unit
  unfolding choose_canonical_unit
  chosen-ReadsItself collection property_name chosen =
      lookup-All ReadsItself (collection, property_name) canonical_units
        (All-imp (λ row known. contains-All ReadsItself units row.1 known units-ReadsItself)
          canonical_units (all-All (λ row. contains units row.1) canonical_units rows_in_units))
        chosen

  -- Where a property has a canonical unit, a value stated in it is read at a factor of one, and nothing
  -- is noted.
  pub convert-canonical :
      (collection property_name unit : Text) (value : N) (conversions : UnitConversions)
      → choose_canonical_unit collection property_name ≡ some unit
      → convert ops is_other_symbol
          (record {
            value = some value;
            unit = some unit;
            collection = collection;
            property_name = property_name;
          })
          conversions
        ≡ ok (some (ops.times value (one ops)), conversions)
  unfolding convert factor_of factor_between
  convert-canonical collection property_name unit value conversions chosen =
      let itself = chosen-ReadsItself collection property_name chosen in
      rw (chosen, itself, ◌>>=◌) refl

  conversion_factor-known :
      (stated unit : Text)
      → ReadsItself unit
      → (factor : Option N) × (conversion_factor ops is_other_symbol stated unit ≡ ok factor)
  unfolding conversion_factor
  conversion_factor-known stated unit itself =
      elim (Option-cases (lookup unit (factors_to_canonical ops))) [
        | inl unknown ↦ ground arith
        | inr (factors, known) ↦ (
          lookup (as_written_here ops is_other_symbol stated unit) factors,
          rw (known, conversion_factor) refl,
        )
      ]

  -- What reading a value stated in `unit` gives, with the canonical unit and what is known of its
  -- factor. Without a factor the value is as the model wrote it, and the unit is noted, once; with one
  -- the value is multiplied by it, and nothing is noted.
  abbrev pub IsReadAt :
      (property_name unit : Text)
      → Option N
      → (stated given : Option N) → (before after : UnitConversions) → Type 0
  IsReadAt property_name unit none stated given before after =
      (given ≡ stated)
      × (after ≡ record before { unreadable = add_once (property_name, unit) before.unreadable })
  IsReadAt property_name unit (some factor) stated given before after =
      (given ≡ Option.map (λ value. ops.times value factor) stated) × (after ≡ before)

  -- What a conversion gives and what it leaves behind, by the unit stated and the canonical unit. Where
  -- either is missing, the value is as the model wrote it and nothing is noted.
  abbrev pub IsConverted :
      (property_name : Text)
      → (stated_unit canonical : Option Text) → (stated given : Option N)
      → (before after : UnitConversions) → Type 0
  IsConverted property_name (some unit) (some canonical) stated given before after =
      (factor : Option N) × (conversion_factor ops is_other_symbol unit canonical ≡ ok factor)
      × IsReadAt property_name unit factor stated given before after
  IsConverted property_name none canonical stated given before after =
      (given ≡ stated) × (after ≡ before)
  IsConverted property_name (some unit) none stated given before after =
      (given ≡ stated) × (after ≡ before)

  scaled-map :
      (stated : Option N) (factor : N)
      → scaled ops is_other_symbol stated (some factor)
        ≡ Option.map (λ value. ops.times value factor) stated
  scaled-map none factor = refl
  scaled-map (some value) factor = refl

  note_unreadable-IsReadAt :
      (property_name unit : Text) (stated factor : Option N) (before : UnitConversions)
      → (given : Option N) × (after : UnitConversions) × ((ok
              (note_unreadable ops is_other_symbol factor (property_name, unit) before)
            ≡ ok (given, after))
          × IsReadAt property_name unit factor stated
              (scaled ops is_other_symbol stated given)
              before
              after)
  note_unreadable-IsReadAt property_name unit stated none before = (none, _, (refl, (refl, refl)))
  note_unreadable-IsReadAt property_name unit stated (some factor) before =
      (some factor, before, (refl, (scaled-map stated factor, refl)))

  factor_between-Returns :
      (property_name : Text) (stated_unit canonical : Option Text) (stated : Option N)
      (before : UnitConversions)
      → ((unit : Text) → canonical ≡ some unit → ReadsItself unit)
      → (factor : Option N) × (after : UnitConversions) × (factor_between ops is_other_symbol
            property_name stated_unit canonical before
          ≡ ok (factor, after))
        × IsConverted property_name stated_unit canonical stated
            (scaled ops is_other_symbol stated factor)
            before
            after
  unfolding factor_between
  factor_between-Returns property_name none canonical stated before known =
      (none, before, refl, (refl, refl))
  factor_between-Returns property_name (some unit) none stated before known =
      (none, before, refl, (refl, refl))
  factor_between-Returns property_name (some unit) (some canonical) stated before known =
      let (factor, found) = conversion_factor-known unit canonical (known canonical refl) in
      let (given, after, noted) =
        note_unreadable-IsReadAt property_name unit stated factor before in
      (given, after, rw (found, ◌>>=◌) noted.0, (factor, found, noted.1))

  -- A conversion always returns. Where the stated value has no unit or its property no canonical one,
  -- the value is as the model wrote it and nothing is noted. Otherwise the two units have a factor or
  -- none: with a factor the value is multiplied by it and nothing is noted; with none the value is as
  -- the model wrote it, and the property and its unit are noted as unreadable, once.
  pub convert-Returns :
      (stated : StatedValue N) (before : UnitConversions)
      → (value : Option N) × (after : UnitConversions) × (convert ops is_other_symbol stated before
          ≡ ok (value, after))
        × IsConverted stated.property_name stated.unit
            (choose_canonical_unit stated.collection stated.property_name)
            stated.value
            value
            before
            after
  unfolding convert factor_of
  convert-Returns stated before =
      let (factor, after, found, converted) =
        factor_between-Returns stated.property_name stated.unit
          (choose_canonical_unit stated.collection stated.property_name) stated.value before
          (λ unit chosen. chosen-ReadsItself stated.collection stated.property_name chosen) in
      (scaled ops is_other_symbol stated.value factor, after, rw (found, ◌>>=◌) refl, converted)
