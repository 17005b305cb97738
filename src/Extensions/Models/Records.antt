-- ===== src/Extensions/Models/Records.antt =====
-- The record of each kind's model in interop/core/extensions.py, as `model_dump` with `exclude_none`
-- gives it: a field that is `None` is left out, and a field with another default is stated.
use tz_oss_interop.Prelude.{Bool, true, false, Option, none, some, List, [], ◌∷◌, ◌++◌}
use tz_oss_interop.Prelude.Text.{Text, codes}
use tz_oss_interop.Spec.{
  Value, Items, Fields, Params, text, number, boolean, sequence, mapping, nil, cons, end, field,
}
use tz_oss_interop.Extensions.{ExtensionRecord}
use tz_oss_interop.Extensions.Models.{
  ReserveDirection, up, down, symmetric, unknown, ReserveKind, spinning, non_spinning, regulating,
  replacement, operating, inertia, unknown_kind, ConstraintSense, at_most, exactly, at_least,
  ConstraintPeriod, horizon, hour, day, week, month, year, BusExtension, ExpansionExtension,
  GeneratorExtension, LoadExtension, LineExtension, ControllableLineExtension, StorageExtension,
  ReserveExtension, ConstraintMember, ConstraintLimit, ConstraintExtension, NetworkExtension,
}

-- A field that states a value, and nothing where it is `None`.
abbrev pub given : Text → Option Value → Params
given name none = []
given name (some value) = (name, value) ∷ []

abbrev pub as_text : Option Text → Option Value
as_text none = none
as_text (some t) = some (text t)

abbrev pub as_number : Option Text → Option Value
as_number none = none
as_number (some t) = some (number t)

abbrev pub as_flag : Option Bool → Option Value
as_flag none = none
as_flag (some b) = some (boolean b)

abbrev pub direction_text : ReserveDirection → Text
direction_text up = codes "up"
direction_text down = codes "down"
direction_text symmetric = codes "symmetric"
direction_text unknown = codes "unknown"

abbrev pub reserve_kind_text : ReserveKind → Text
reserve_kind_text spinning = codes "spinning"
reserve_kind_text non_spinning = codes "non_spinning"
reserve_kind_text regulating = codes "regulating"
reserve_kind_text replacement = codes "replacement"
reserve_kind_text operating = codes "operating"
reserve_kind_text inertia = codes "inertia"
reserve_kind_text unknown_kind = codes "unknown"

abbrev pub sense_text : ConstraintSense → Text
sense_text at_most = codes "<="
sense_text exactly = codes "=="
sense_text at_least = codes ">="

abbrev pub period_text : ConstraintPeriod → Text
period_text horizon = codes "horizon"
period_text hour = codes "hour"
period_text day = codes "day"
period_text week = codes "week"
period_text month = codes "month"
period_text year = codes "year"

abbrev pub as_sense : Option ConstraintSense → Option Value
as_sense none = none
as_sense (some s) = some (text (sense_text s))

abbrev pub texts : List Text → Items
texts [] = nil
texts (t ∷ ts) = cons (text t) (texts ts)

-- A model inside a model is a mapping of its fields.
abbrev pub fields_of : Params → Fields
fields_of [] = end
fields_of ((name, value) ∷ rest) = field (text name) value (fields_of rest)

abbrev pub dump_limits : List ConstraintLimit → Items
dump_limits [] = nil
dump_limits (l ∷ limits) =
    cons
      (mapping (
        fields_of (
          (codes "period", text (period_text l.period))
          ∷ (codes "value", number l.value)
          ∷ given (codes "unit") (as_text l.unit))))
      (dump_limits limits)

abbrev pub dump_members : List ConstraintMember → Items
dump_members [] = nil
dump_members (m ∷ members) =
    cons
      (mapping (
        fields_of (
          (codes "name", text m.name)
            ∷ (codes "member_class", text m.member_class)
            ∷ given (codes "coefficient") (as_number m.coefficient)
          ++ given (codes "coefficient_property") (as_text m.coefficient_property))))
      (dump_members members)

unfoldable pub bus_record : BusExtension → ExtensionRecord
bus_record b = record {
  name = b.name;
  attributes =
      given (codes "carrier") (as_text b.carrier)
      ++ given (codes "value_of_lost_load") (as_number b.value_of_lost_load);
}

abbrev pub expansion_fields : ExpansionExtension → Params
expansion_fields e =
    given (codes "unit_size_mw") (as_number e.unit_size_mw)
    ++ given (codes "technical_life_years") (as_number e.technical_life_years)
    ++ given (codes "fom_charge_per_mw_year") (as_number e.fom_charge_per_mw_year)
    ++ given (codes "retirement_year") (as_number e.retirement_year)
    ++ given (codes "p_nom_max") (as_number e.p_nom_max)
    ++ given (codes "p_nom_min") (as_number e.p_nom_min)
    ++ given (codes "overnight_cost_per_mw") (as_number e.overnight_cost_per_mw)
    ++ given (codes "discount_rate") (as_number e.discount_rate)
    ++ given (codes "lifetime_years") (as_number e.lifetime_years)
    ++ given (codes "build_year") (as_number e.build_year)

unfoldable pub generator_record : GeneratorExtension → ExtensionRecord
generator_record g = record {
  name = g.name;
  attributes =
      expansion_fields g.expansion
      ++ given (codes "carrier") (as_text g.carrier)
      ++ given (codes "committable") (as_flag g.committable)
      ++ given (codes "p_nom_extendable") (as_flag g.p_nom_extendable)
      ++ given (codes "category") (as_text g.category)
      ++ given (codes "efficiency") (as_number g.efficiency)
      ++ given (codes "marginal_cost_series") (as_text g.marginal_cost_series);
}

unfoldable pub load_record : LoadExtension → ExtensionRecord
load_record l = record {
  name = l.name;
  attributes =
      given (codes "carrier") (as_text l.carrier)
      ++ given (codes "type") (as_text l.type)
      ++ given (codes "sign") (as_number l.sign);
}

unfoldable pub line_record : LineExtension → ExtensionRecord
line_record l = record {
  name = l.name;
  attributes =
      given (codes "carrier") (as_text l.carrier)
      ++ given (codes "length") (as_number l.length)
      ++ given (codes "num_parallel") (as_number l.num_parallel)
      ++ given (codes "s_nom_extendable") (as_flag l.s_nom_extendable);
}

unfoldable pub controllable_line_record : ControllableLineExtension → ExtensionRecord
controllable_line_record c = record {
  name = c.name;
  attributes =
      given (codes "carrier") (as_text c.carrier)
      ++ given (codes "marginal_cost") (as_number c.marginal_cost)
      ++ given (codes "p_nom_extendable") (as_flag c.p_nom_extendable)
      ++ given (codes "p_max_pu") (as_number c.p_max_pu)
      ++ given (codes "p_min_pu") (as_number c.p_min_pu)
      ++ given (codes "has_time_varying_efficiency") (as_flag c.has_time_varying_efficiency)
      ++ given (codes "has_time_varying_p_max_pu") (as_flag c.has_time_varying_p_max_pu)
      ++ given (codes "has_time_varying_p_min_pu") (as_flag c.has_time_varying_p_min_pu);
}

unfoldable pub storage_record : StorageExtension → ExtensionRecord
storage_record s = record {
  name = s.name;
  attributes =
      expansion_fields s.expansion
      ++ given (codes "p_nom_extendable") (as_flag s.p_nom_extendable)
      ++ given (codes "max_hours") (as_number s.max_hours)
      ++ given (codes "state_of_charge_initial") (as_number s.state_of_charge_initial)
      ++ given (codes "inflow_mw") (as_number s.inflow_mw)
      ++ given (codes "inflow_series") (as_text s.inflow_series)
      ++ given (codes "rating_series") (as_text s.rating_series);
}

unfoldable pub reserve_record : ReserveExtension → ExtensionRecord
reserve_record r = record {
  name = r.name;
  attributes =
      given (codes "requirement_mw") (as_number r.requirement_mw)
      ++ given (codes "requirement_series") (as_text r.requirement_series)
      ++ (codes "contributing_generators", sequence (texts r.contributing_generators))
        ∷ (codes "direction", text (direction_text r.direction))
        ∷ (codes "kind", text (reserve_kind_text r.kind))
        ∷ given (codes "sustained_time_seconds") (as_number r.sustained_time_seconds)
      ++ given (codes "is_available") (as_flag r.is_available)
      ++ given (codes "max_participation_factor") (as_number r.max_participation_factor)
      ++ given (codes "shortage_price") (as_number r.shortage_price)
      ++ given (codes "is_mutually_exclusive") (as_flag r.is_mutually_exclusive);
}

unfoldable pub constraint_record : ConstraintExtension → ExtensionRecord
constraint_record c = record {
  name = c.name;
  attributes =
      given (codes "sense") (as_sense c.sense)
      ++ (codes "limits", sequence (dump_limits c.limits))
        ∷ (codes "members", sequence (dump_members c.members))
        ∷ given (codes "applies_to_expansion_plan") (as_flag c.applies_to_expansion_plan);
}

unfoldable pub network_record : NetworkExtension → ExtensionRecord
network_record n = record {
  name = n.name;
  attributes =
      given (codes "pypsa_version") (as_text n.pypsa_version)
      ++ given (codes "objective") (as_number n.objective);
}

-- `ExtensionRecord.has_any_value`
unfoldable pub has_any_value : ExtensionRecord → Bool
has_any_value r = elim r.attributes [ [] ↦ false | entry ∷ rest ↦ true ]
