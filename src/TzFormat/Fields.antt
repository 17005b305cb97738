-- ===== src/TzFormat/Fields.antt =====
-- interop/plugins/shared/osemosys_canonical/tz_fields.py: the fields of the TZ format, the table that
-- each is read into and the sets that its values are nested by. The names of the sets are those of
-- interop/plugins/shared/osemosys_canonical_schema.yaml.
pub mod Table
use tz_oss_interop.Prelude.{
  ℕ, nat_beq, nat_beq_iff, Bool, true, false, Option, none, some, List, [], ◌∷◌, if◌then◌else◌, ◌≡◌,
  refl, ap, sym, ◌∙◌, ◌↔◌, Eq, nat_eq, ◌++◌, not, arith,
}
use tz_oss_interop.Prelude.Text.{Text, codes, join}
use tz_oss_interop.Prelude.Dict.{Dict}
use tz_oss_interop.TzFormat.{region_set}

-- `TzOwner`
pub data TzOwner : Type 0 where
  model time_definition regions region_groups commodities impacts technologies operating_modes :
      TzOwner
  storage trade : TzOwner

abbrev pub owner_number : TzOwner → ℕ
owner_number model = 0
owner_number time_definition = 1
owner_number regions = 2
owner_number region_groups = 3
owner_number commodities = 4
owner_number impacts = 5
owner_number technologies = 6
owner_number operating_modes = 7
owner_number storage = 8
owner_number trade = 9

owner_at : ℕ → TzOwner
owner_at n =
    if nat_beq n 0
    then model
    else if nat_beq n 1
    then time_definition
    else if nat_beq n 2
    then regions
    else if nat_beq n 3
    then region_groups
    else if nat_beq n 4
    then commodities
    else if nat_beq n 5
    then impacts
    else if nat_beq n 6
    then technologies
    else if nat_beq n 7
    then operating_modes
    else if nat_beq n 8
    then storage
    else trade

owner_at-owner_number : (o : TzOwner) → owner_at (owner_number o) ≡ o
unfolding owner_at
owner_at-owner_number model = refl
owner_at-owner_number time_definition = refl
owner_at-owner_number regions = refl
owner_at-owner_number region_groups = refl
owner_at-owner_number commodities = refl
owner_at-owner_number impacts = refl
owner_at-owner_number technologies = refl
owner_at-owner_number operating_modes = refl
owner_at-owner_number storage = refl
owner_at-owner_number trade = refl

abbrev pub owner_beq : TzOwner → TzOwner → Bool
owner_beq o p = nat_beq (owner_number o) (owner_number p)

pub owner_beq_iff : (o p : TzOwner) → (owner_beq o p ≡ true) ↔ (o ≡ p)
owner_beq_iff o p = (
  λ same.
      sym (owner_at-owner_number o)
      ∙ ap owner_at ((nat_beq_iff (owner_number o) (owner_number p)).0 same)
      ∙ owner_at-owner_number p,
  λ same. (nat_beq_iff (owner_number o) (owner_number p)).1 (ap owner_number same),
)

instance abbrev pub owner_eq : Eq TzOwner
owner_eq = record { same = owner_beq; agrees = owner_beq_iff }

-- `build_tz_name`: the parts that are not empty, with a point between them.
unfoldable pub not_empty : List Text → List Text
not_empty [] = []
not_empty ([] ∷ parts) = not_empty parts
not_empty ((c ∷ part) ∷ parts) = (c ∷ part) ∷ not_empty parts

abbrev pub build_tz_name : List Text → Text
build_tz_name parts = join b'.' (not_empty parts)

abbrev pub technology_set : Text
technology_set = codes "TECHNOLOGY"

abbrev pub fuel_set : Text
fuel_set = codes "FUEL"

abbrev pub emission_set : Text
emission_set = codes "EMISSION"

abbrev pub mode_set : Text
mode_set = codes "MODE_OF_OPERATION"

abbrev pub storage_set : Text
storage_set = codes "STORAGE"

abbrev pub year_set : Text
year_set = codes "YEAR"

abbrev pub timeslice_set : Text
timeslice_set = codes "TIMESLICE"

abbrev pub season_set : Text
season_set = codes "SEASON"

abbrev pub day_type_set : Text
day_type_set = codes "DAYTYPE"

abbrev pub bracket_set : Text
bracket_set = codes "DAILYTIMEBRACKET"

abbrev pub region_group_set : Text
region_group_set = codes "REGIONGROUP"

-- `TzField`
pub record TzField : Type 0 where
  pub owner : TzOwner
  pub field_name : Text
  pub table : Text
  pub nesting : List Text
  pub default : Option Text
  pub value_set : Option Text

abbrev pub tz_field : TzOwner → Text → Text → List Text → Option Text → Option Text → TzField
tz_field owner field_name table nesting default value_set = record {
  owner = owner;
  field_name = field_name;
  table = table;
  nesting = nesting;
  default = default;
  value_set = value_set;
}

-- `OWNER_COLUMNS`
abbrev pub owner_columns : TzOwner → List Text
owner_columns model = []
owner_columns time_definition = []
owner_columns regions = region_set ∷ []
owner_columns region_groups = region_group_set ∷ []
owner_columns commodities = fuel_set ∷ []
owner_columns impacts = emission_set ∷ []
owner_columns technologies = technology_set ∷ []
owner_columns operating_modes = technology_set ∷ mode_set ∷ []
owner_columns storage = storage_set ∷ []
owner_columns trade = fuel_set ∷ []

-- `OBJECT_SETS`
abbrev pub object_sets : Dict TzOwner Text
object_sets =
    (regions, region_set)
    ∷ (region_groups, region_group_set)
    ∷ (commodities, fuel_set)
    ∷ (impacts, emission_set)
    ∷ (technologies, technology_set)
    ∷ (storage, storage_set)
    ∷ (operating_modes, mode_set)
    ∷ []

-- `TIME_SETS`
abbrev pub time_sets : Dict Text Text
time_sets =
    (codes "years", year_set)
    ∷ (codes "timeslices", timeslice_set)
    ∷ (codes "seasons", season_set)
    ∷ (codes "day_types", day_type_set)
    ∷ (codes "daily_time_brackets", bracket_set)
    ∷ []

-- `REGION_PAIR_FIELDS`
abbrev pub region_pair_fields : List Text
region_pair_fields =
    codes "trade_routes"
    ∷ codes "trade_loss"
    ∷ codes "residual_capacity"
    ∷ codes "capex"
    ∷ codes "capacity_additional_max"
    ∷ codes "operating_life"
    ∷ codes "cost_of_capital"
    ∷ codes "capacity_activity_unit_ratio"
    ∷ []
