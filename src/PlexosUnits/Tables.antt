-- ===== src/PlexosUnits/Tables.antt =====
-- The tables of interop/plugins/shared/plexos_units.py, with the names of
-- interop/plugins/shared/constants.py and interop/plugins/shared/plexos_constants.py. A number is of
-- any type with the operations that the tables and the conversion use.
use tz_oss_interop.Prelude.{Bool, [], ◌∷◌}
use tz_oss_interop.Prelude.Text.{Text, codes}
use tz_oss_interop.Prelude.Dict.{Dict}

-- The operations on floats: a literal by its text, `*`, `/` and `==`.
pub record Numbers (N : Type 0) : Type 0 where
  pub literal : Text → N
  pub times : N → N → N
  pub divided : N → N → N
  pub equal : N → N → Bool

-- `_SPELLINGS`
abbrev pub spellings : Dict Text Text
spellings =
    (codes "MMBtu", codes "MMBTU")
    ∷ (codes "hr", codes "h")
    ∷ (codes "year", codes "yr")
    ∷ (codes "years", codes "yr")
    ∷ (codes "yrs", codes "yr")
    ∷ []

-- `CANONICAL_UNIT`
abbrev pub canonical_units : Dict (Text × Text) Text
canonical_units =
    ((codes "Generators", codes "Heat Rate"), codes "GJ/MWh")
    ∷ ((codes "Generators", codes "Heat Rate Incr"), codes "GJ/MWh")
    ∷ ((codes "Generators", codes "Heat Rate Base"), codes "GJ/h")
    ∷ ((codes "Generators", codes "Max Capacity"), codes "MW")
    ∷ ((codes "Generators", codes "Rating"), codes "MW")
    ∷ ((codes "Generators", codes "Min Stable Level"), codes "MW")
    ∷ ((codes "Generators", codes "Max Ramp Up"), codes "MW/min")
    ∷ ((codes "Generators", codes "Max Ramp Down"), codes "MW/min")
    ∷ ((codes "Generators", codes "Min Up Time"), codes "h")
    ∷ ((codes "Generators", codes "Min Down Time"), codes "h")
    ∷ ((codes "Generators", codes "VO&M Charge"), codes "$/MWh")
    ∷ ((codes "Fuels", codes "Price"), codes "$/GJ")
    ∷ ((codes "Fuels", codes "Production Rate"), codes "kg/GJ")
    ∷ ((codes "Emissions", codes "Price"), codes "$/tonne")
    ∷ ((codes "Generators", codes "Min Pump Load"), codes "MW")
    ∷ ((codes "Generators", codes "Load Point"), codes "MW")
    ∷ ((codes "Generators", codes "Start Cost"), codes "$")
    ∷ ((codes "Generators", codes "Build Cost"), codes "$/MW")
    ∷ ((codes "Generators", codes "FO&M Charge"), codes "$/MW/yr")
    ∷ ((codes "Generators", codes "Economic Life"), codes "yr")
    ∷ ((codes "Generators", codes "Technical Life"), codes "yr")
    ∷ ((codes "Start Fuels", codes "Offtake at Start"), codes "GJ")
    ∷ ((codes "Lines", codes "Max Flow"), codes "MW")
    ∷ ((codes "Lines", codes "Min Flow"), codes "MW")
    ∷ ((codes "Lines", codes "Max Rating"), codes "MW")
    ∷ ((codes "Lines", codes "Length"), codes "km")
    ∷ ((codes "Lines", codes "Wheeling Charge"), codes "$/MWh")
    ∷ ((codes "Nodes", codes "Voltage"), codes "kV")
    ∷ ((codes "Regions", codes "Load"), codes "MW")
    ∷ ((codes "Regions", codes "VoLL"), codes "$/MWh")
    ∷ ((codes "Batteries", codes "Max Power"), codes "MW")
    ∷ ((codes "Batteries", codes "Capacity"), codes "MWh")
    ∷ ((codes "Batteries", codes "Duration"), codes "h")
    ∷ ((codes "Batteries", codes "Build Cost"), codes "$/MW")
    ∷ ((codes "Batteries", codes "FO&M Charge"), codes "$/MW/yr")
    ∷ ((codes "Batteries", codes "Economic Life"), codes "yr")
    ∷ ((codes "Batteries", codes "Technical Life"), codes "yr")
    ∷ ((codes "Storages", codes "Max Volume"), codes "MWh")
    ∷ ((codes "Storages", codes "Initial Volume"), codes "MWh")
    ∷ ((codes "Storages", codes "Natural Inflow"), codes "MW")
    ∷ []

module _ {N : Type 0} (ops : Numbers N) where
  abbrev pub one : N
  one = ops.literal (codes "1.0")

  abbrev gj_per_mmbtu : N
  gj_per_mmbtu = ops.literal (codes "1.0550559")

  abbrev kilograms_per_pound : N
  kilograms_per_pound = ops.literal (codes "0.45359237")

  abbrev kilograms_per_tonne : N
  kilograms_per_tonne = ops.literal (codes "1000.0")

  abbrev gj_per_mwh_thermal : N
  gj_per_mwh_thermal = ops.literal (codes "3.6")

  abbrev minutes_per_hour : N
  minutes_per_hour = ops.literal (codes "60.0")

  abbrev hours_per_day : N
  hours_per_day = ops.literal (codes "24.0")

  abbrev seconds_per_hour : N
  seconds_per_hour = ops.literal (codes "3600.0")

  abbrev thousand : N
  thousand = ops.literal (codes "1000.0")

  abbrev million : N
  million = ops.literal (codes "1000000.0")

  abbrev km_per_mile : N
  km_per_mile = ops.literal (codes "1.609344")

  -- `_FACTOR_TO_CANONICAL`
  abbrev pub factors_to_canonical : Dict Text (Dict Text N)
  factors_to_canonical =
      (
        codes "GJ/MWh",
        (codes "GJ/MWh", one)
            ∷ (codes "MJ/kWh", one)
            ∷ (codes "MMBTU/MWh", gj_per_mmbtu)
            ∷ (codes "BTU/kWh", ops.divided gj_per_mmbtu thousand)
            ∷ (codes "kJ/kWh", ops.divided one thousand)
            ∷ [],
      )
      ∷ (
        codes "GJ",
        (codes "GJ", one)
            ∷ (codes "MJ", ops.divided one thousand)
            ∷ (codes "kJ", ops.divided one million)
            ∷ (codes "MMBTU", gj_per_mmbtu)
            ∷ (codes "BTU", ops.divided gj_per_mmbtu million)
            ∷ (codes "MWh", gj_per_mwh_thermal)
            ∷ (codes "GWh", ops.times gj_per_mwh_thermal thousand)
            ∷ [],
      )
      ∷ (
        codes "GJ/h",
        (codes "GJ/h", one)
            ∷ (codes "MJ/h", ops.divided one thousand)
            ∷ (codes "MMBTU/h", gj_per_mmbtu)
            ∷ (codes "BTU/h", ops.divided gj_per_mmbtu million)
            ∷ [],
      )
      ∷ (
        codes "$/GJ",
        (codes "$/GJ", one)
            ∷ (codes "$/MMBTU", ops.divided one gj_per_mmbtu)
            ∷ (codes "$/MWh", ops.divided one gj_per_mwh_thermal)
            ∷ [],
      )
      ∷ (
        codes "$/tonne",
        (codes "$/tonne", one)
            ∷ (codes "$/t", one)
            ∷ (codes "$/kg", kilograms_per_tonne)
            ∷ (codes "$/lb", ops.divided kilograms_per_tonne kilograms_per_pound)
            ∷ [],
      )
      ∷ (
        codes "kg/GJ",
        (codes "kg/GJ", one)
            ∷ (codes "t/GJ", kilograms_per_tonne)
            ∷ (codes "kg/MMBTU", ops.divided one gj_per_mmbtu)
            ∷ (codes "lb/GJ", kilograms_per_pound)
            ∷ (codes "lb/MMBTU", ops.divided kilograms_per_pound gj_per_mmbtu)
            ∷ [],
      )
      ∷ (
        codes "$/MWh",
        (codes "$/MWh", one)
            ∷ (codes "$/kWh", thousand)
            ∷ (codes "$/GWh", ops.divided one thousand)
            ∷ [],
      )
      ∷ (
        codes "MW",
        (codes "MW", one) ∷ (codes "kW", ops.divided one thousand) ∷ (codes "GW", thousand) ∷ [],
      )
      ∷ (
        codes "MW/min",
        (codes "MW/min", one)
            ∷ (codes "MW/h", ops.divided one minutes_per_hour)
            ∷ (codes "kW/min", ops.divided one thousand)
            ∷ [],
      )
      ∷ (
        codes "h",
        (codes "h", one)
            ∷ (codes "min", ops.divided one minutes_per_hour)
            ∷ (codes "s", ops.divided one seconds_per_hour)
            ∷ (codes "day", hours_per_day)
            ∷ [],
      )
      ∷ (
        codes "MWh",
        (codes "MWh", one) ∷ (codes "kWh", ops.divided one thousand) ∷ (codes "GWh", thousand) ∷ [],
      )
      ∷ (
        codes "kV",
        (codes "kV", one) ∷ (codes "V", ops.divided one thousand) ∷ (codes "MV", thousand) ∷ [],
      )
      ∷ (
        codes "km",
        (codes "km", one)
            ∷ (codes "m", ops.divided one thousand)
            ∷ (codes "mile", km_per_mile)
            ∷ [],
      )
      ∷ (codes "$", (codes "$", one) ∷ (codes "$000", thousand) ∷ [])
      ∷ (
        codes "$/MW",
        (codes "$/MW", one)
            ∷ (codes "$/kW", thousand)
            ∷ (codes "$/GW", ops.divided one thousand)
            ∷ [],
      )
      ∷ (
        codes "$/MW/yr",
        (codes "$/MW/yr", one)
            ∷ (codes "$/kW/yr", thousand)
            ∷ (codes "$/GW/yr", ops.divided one thousand)
            ∷ [],
      )
      ∷ (codes "yr", (codes "yr", one) ∷ [])
      ∷ []
