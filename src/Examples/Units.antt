-- ===== src/Examples/Units.antt =====
-- A heat rate in its canonical unit, and one in a unit that is not known, over numbers that are
-- natural.
use tz_oss_interop.Prelude.{ℕ, ◌*◌, nat_beq, ◌≡◌, refl, Bool, false, Option, some, [], ◌∷◌, length}
use tz_oss_interop.Prelude.Text.{text_beq, codes, split}
use tz_oss_interop.Prelude.Dict.{lookup}
use tz_oss_interop.Errors.{ok}
use tz_oss_interop.PlexosUnits.Tables.{Numbers, one}
use tz_oss_interop.PlexosUnits.{
  choose_canonical_unit, StatedValue, UnitConversions, convert, factor_of, factor_between,
  conversion_factor, as_written_here, starts_with_dollars, in_dollars, spelled,
  resolve_generic_energy_unit, replace_tilde,
}
use tz_oss_interop.PlexosUnits.Conversions.{IsConverted, convert-canonical, convert-Returns}

abbrev ops : Numbers ℕ
ops = record {
  literal = λ shown. length shown;
  times = λ a b. a * b;
  divided = λ a b. a;
  equal = nat_beq;
}

abbrev beyond : ℕ → Bool
beyond c = false

abbrev fresh : UnitConversions
fresh = record { unreadable = []; unconverted_profiles = [] }

heat_rate_chosen :
    choose_canonical_unit (codes "Generators") (codes "Heat Rate") ≡ some (codes "GJ/MWh")
unfolding choose_canonical_unit lookup text_beq
heat_rate_chosen = refl

convert-canonical_example :
    convert ops beyond
      (record {
        value = some 9;
        unit = some (codes "GJ/MWh");
        collection = codes "Generators";
        property_name = codes "Heat Rate";
      })
      fresh
    ≡ ok (some (9 * one ops), fresh)
convert-canonical_example =
    convert-canonical ops beyond (codes "Generators") (codes "Heat Rate") (codes "GJ/MWh") 9 fresh
      heat_rate_chosen

abbrev odd_rate : StatedValue ℕ
odd_rate = record {
  value = some 9;
  unit = some (codes "cal/h");
  collection = codes "Generators";
  property_name = codes "Heat Rate";
}

odd_rate_noted :
    convert ops beyond odd_rate fresh
    ≡ ok (some 9, record fresh { unreadable = (codes "Heat Rate", codes "cal/h") ∷ [] })
unfolding convert factor_of factor_between choose_canonical_unit conversion_factor as_written_here
    starts_with_dollars spelled split lookup text_beq
odd_rate_noted = refl

-- Another currency reads as dollars, and a tilde is the model's own energy unit.
australian_dollars : as_written_here ops beyond (codes "A$/MMBtu") (codes "$/GJ") ≡ codes "$/MMBTU"
unfolding as_written_here starts_with_dollars in_dollars spelled split lookup text_beq
australian_dollars = refl

tilde_resolved :
    resolve_generic_energy_unit (codes "$/~") (some (codes "Imperial")) ≡ codes "$/MMBTU"
unfolding resolve_generic_energy_unit replace_tilde text_beq
tilde_resolved = refl

convert-Returns_example :
    (value : Option ℕ) × (after : UnitConversions) × (convert ops beyond odd_rate fresh
      ≡ ok (value, after))
    × IsConverted ops beyond odd_rate.property_name odd_rate.unit
        (choose_canonical_unit odd_rate.collection odd_rate.property_name)
        odd_rate.value
        value
        fresh
        after
convert-Returns_example = convert-Returns ops beyond odd_rate fresh
