-- ===== src/Extensions/Models/Stated.antt =====
-- What counts as a stated value: `has_any_value` of the records of the kinds.
use tz_oss_interop.Prelude.{◌≡◌, ◌↔◌, true, false, none, arith}
use tz_oss_interop.Extensions.Models.{BusExtension, ReserveExtension, ConstraintExtension}
use tz_oss_interop.Extensions.Models.Records.{
  bus_record, reserve_record, constraint_record, has_any_value,
}

-- A bus record has a value exactly where its carrier or its value of lost load is stated.
pub has_any_value-bus_record :
    (b : BusExtension)
    → (has_any_value (bus_record b) ≡ false) ↔ ((b.carrier ≡ none) × (b.value_of_lost_load ≡ none))
unfolding has_any_value bus_record
has_any_value-bus_record b = ground arith

-- The record of every reserve and of every constraint has a value, whatever their models state:
-- fields whose default is not `None` are in it.
pub has_any_value-defaults :
    (r : ReserveExtension) (c : ConstraintExtension)
    → (has_any_value (reserve_record r) ≡ true) × (has_any_value (constraint_record c) ≡ true)
unfolding has_any_value reserve_record constraint_record
has_any_value-defaults r c = (ground arith, ground arith)
