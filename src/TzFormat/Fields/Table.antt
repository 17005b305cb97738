-- ===== src/TzFormat/Fields/Table.antt =====
-- The rows of `TZ_FIELDS` in interop/plugins/shared/osemosys_canonical/tz_fields.py, in its order. A
-- default is the number as the code writes it.
use tz_oss_interop.Prelude.{none, some, List, [], ◌∷◌, ◌++◌}
use tz_oss_interop.Prelude.Text.{codes}
use tz_oss_interop.TzFormat.{region_set, second_region}
use tz_oss_interop.TzFormat.Fields.{
  TzField, tz_field, model, time_definition, region_groups, commodities, impacts, technologies,
  operating_modes, storage, trade, technology_set, fuel_set, emission_set, storage_set, year_set,
  timeslice_set, season_set, day_type_set, bracket_set, region_group_set,
}

abbrev pub model_fields : List TzField
model_fields =
    tz_field model (codes "depreciation_method") (codes "DepreciationMethod") (region_set ∷ [])
      (some (codes "1.0")) none
    ∷ tz_field model (codes "discount_rate") (codes "DiscountRate") (region_set ∷ [])
        (some (codes "0.05")) none
    ∷ tz_field model (codes "cost_of_capital") (codes "DiscountRateIdv")
        (region_set ∷ technology_set ∷ []) none none
    ∷ tz_field model (codes "cost_of_capital_storage") (codes "DiscountRateStorage")
        (region_set ∷ storage_set ∷ []) none none
    ∷ tz_field model (codes "reserve_margin") (codes "ReserveMargin") (region_set ∷ year_set ∷ [])
        (some (codes "1.0")) none
    ∷ tz_field model (codes "renewable_production_target") (codes "REMinProductionTarget")
        (region_set ∷ year_set ∷ []) none none
    ∷ tz_field model (codes "region_group_renewable_production_target")
        (codes "RegionGroupREMinProductionTarget") (region_group_set ∷ year_set ∷ []) none none
    ∷ []

abbrev pub time_definition_fields : List TzField
time_definition_fields =
    tz_field time_definition (codes "year_split") (codes "YearSplit")
      (timeslice_set ∷ year_set ∷ []) none none
    ∷ tz_field time_definition (codes "day_split") (codes "DaySplit") (bracket_set ∷ year_set ∷ [])
        none none
    ∷ tz_field time_definition (codes "days_in_day_type") (codes "DaysInDayType")
        (season_set ∷ day_type_set ∷ year_set ∷ []) none none
    ∷ tz_field time_definition (codes "timeslice_in_timebracket") (codes "Conversionlh")
        (timeslice_set ∷ []) none (some bracket_set)
    ∷ tz_field time_definition (codes "timeslice_in_daytype") (codes "Conversionld")
        (timeslice_set ∷ []) none (some day_type_set)
    ∷ tz_field time_definition (codes "timeslice_in_season") (codes "Conversionls")
        (timeslice_set ∷ []) none (some season_set)
    ∷ []

abbrev pub region_groups_fields : List TzField
region_groups_fields =
    tz_field region_groups (codes "include_in_region_group") (codes "RegionGroupTagRegion")
      (region_set ∷ year_set ∷ []) none none
    ∷ []

abbrev pub commodities_fields : List TzField
commodities_fields =
    tz_field commodities (codes "demand_annual") (codes "SpecifiedAnnualDemand")
      (region_set ∷ year_set ∷ []) none none
    ∷ tz_field commodities (codes "demand_profile") (codes "SpecifiedDemandProfile")
        (region_set ∷ year_set ∷ timeslice_set ∷ []) none none
    ∷ tz_field commodities (codes "include_in_joint_renewable_target") (codes "RETagFuel")
        (region_set ∷ year_set ∷ []) none none
    ∷ tz_field commodities (codes "include_in_joint_reserve_margin") (codes "ReserveMarginTagFuel")
        (region_set ∷ year_set ∷ []) none none
    ∷ []

abbrev pub impacts_fields : List TzField
impacts_fields =
    tz_field impacts (codes "constraint_annual") (codes "AnnualEmissionLimit")
      (region_set ∷ year_set ∷ []) none none
    ∷ tz_field impacts (codes "constraint_annual_region_group")
        (codes "AnnualEmissionLimitRegionGroup") (region_group_set ∷ year_set ∷ []) none none
    ∷ tz_field impacts (codes "constraint_total") (codes "ModelPeriodEmissionLimit")
        (region_set ∷ []) none none
    ∷ tz_field impacts (codes "exogenous_annual") (codes "AnnualExogenousEmission")
        (region_set ∷ year_set ∷ []) none none
    ∷ tz_field impacts (codes "exogenous_annual_region_group")
        (codes "AnnualExogenousEmissionRegionGroup") (region_group_set ∷ year_set ∷ []) none none
    ∷ tz_field impacts (codes "exogenous_total") (codes "ModelPeriodExogenousEmission")
        (region_set ∷ []) none none
    ∷ tz_field impacts (codes "penalty") (codes "EmissionsPenalty") (region_set ∷ year_set ∷ [])
        none none
    ∷ []

abbrev pub technologies_fields : List TzField
technologies_fields =
    tz_field technologies (codes "operating_life") (codes "OperationalLife") (region_set ∷ [])
      (some (codes "1.0")) none
    ∷ tz_field technologies (codes "capex") (codes "CapitalCost") (region_set ∷ year_set ∷ [])
        (some (codes "0.00001")) none
    ∷ tz_field technologies (codes "opex_fixed") (codes "FixedCost") (region_set ∷ year_set ∷ [])
        (some (codes "0.00001")) none
    ∷ tz_field technologies (codes "residual_capacity") (codes "ResidualCapacity")
        (region_set ∷ year_set ∷ []) (some (codes "0.0")) none
    ∷ tz_field technologies (codes "capacity_activity_unit_ratio") (codes "CapacityToActivityUnit")
        (region_set ∷ []) (some (codes "1.0")) none
    ∷ tz_field technologies (codes "availability_factor") (codes "AvailabilityFactor")
        (region_set ∷ year_set ∷ []) (some (codes "1.0")) none
    ∷ tz_field technologies (codes "capacity_factor") (codes "CapacityFactor")
        (region_set ∷ year_set ∷ timeslice_set ∷ []) (some (codes "1.0")) none
    ∷ tz_field technologies (codes "capacity_factor_annual_min")
        (codes "TotalAnnualMinCapacityFactor") (region_set ∷ year_set ∷ []) none none
    ∷ tz_field technologies (codes "capacity_one_tech_unit") (codes "CapacityOfOneTechnologyUnit")
        (region_set ∷ year_set ∷ []) none none
    ∷ tz_field technologies (codes "include_in_joint_renewable_target") (codes "RETagTechnology")
        (region_set ∷ year_set ∷ []) none none
    ∷ tz_field technologies (codes "include_in_joint_reserve_margin")
        (codes "ReserveMarginTagTechnology") (region_set ∷ year_set ∷ []) none none
    ∷ tz_field technologies (codes "capacity_gross_max") (codes "TotalAnnualMaxCapacity")
        (region_set ∷ year_set ∷ []) none none
    ∷ tz_field technologies (codes "capacity_gross_min") (codes "TotalAnnualMinCapacity")
        (region_set ∷ year_set ∷ []) none none
    ∷ tz_field technologies (codes "capacity_additional_max")
        (codes "TotalAnnualMaxCapacityInvestment") (region_set ∷ year_set ∷ []) none none
    ∷ tz_field technologies (codes "capacity_additional_max_growth_rate")
        (codes "CapacityAdditionalMaxGrowthRate") (region_set ∷ year_set ∷ []) none none
    ∷ tz_field technologies (codes "capacity_additional_max_floor")
        (codes "CapacityAdditionalMaxFloor") (region_set ∷ year_set ∷ []) none none
    ∷ tz_field technologies (codes "capacity_additional_min")
        (codes "TotalAnnualMinCapacityInvestment") (region_set ∷ year_set ∷ []) none none
    ∷ tz_field technologies (codes "capacity_additional_min_growth_rate")
        (codes "CapacityAdditionalMinGrowthRate") (region_set ∷ year_set ∷ []) none none
    ∷ tz_field technologies (codes "activity_annual_max")
        (codes "TotalTechnologyAnnualActivityUpperLimit") (region_set ∷ year_set ∷ []) none none
    ∷ tz_field technologies (codes "activity_annual_min")
        (codes "TotalTechnologyAnnualActivityLowerLimit") (region_set ∷ year_set ∷ []) none none
    ∷ tz_field technologies (codes "activity_total_max")
        (codes "TotalTechnologyModelPeriodActivityUpperLimit") (region_set ∷ []) none none
    ∷ tz_field technologies (codes "activity_total_min")
        (codes "TotalTechnologyModelPeriodActivityLowerLimit") (region_set ∷ []) none none
    ∷ tz_field technologies (codes "production_target_min") (codes "TechnologyMinProductionTarget")
        (region_set ∷ fuel_set ∷ year_set ∷ []) none none
    ∷ tz_field technologies (codes "production_target_max") (codes "TechnologyMaxProductionTarget")
        (region_set ∷ fuel_set ∷ year_set ∷ []) none none
    ∷ []

abbrev pub operating_modes_fields : List TzField
operating_modes_fields =
    tz_field operating_modes (codes "opex_variable") (codes "VariableCost")
      (region_set ∷ year_set ∷ []) none none
    ∷ tz_field operating_modes (codes "emission_activity_ratio") (codes "EmissionActivityRatio")
        (region_set ∷ emission_set ∷ year_set ∷ []) none none
    ∷ tz_field operating_modes (codes "input_activity_ratio") (codes "InputActivityRatio")
        (region_set ∷ fuel_set ∷ year_set ∷ []) none none
    ∷ tz_field operating_modes (codes "output_activity_ratio") (codes "OutputActivityRatio")
        (region_set ∷ fuel_set ∷ year_set ∷ []) none none
    ∷ tz_field operating_modes (codes "to_storage") (codes "TechnologyToStorage")
        (region_set ∷ storage_set ∷ []) none none
    ∷ tz_field operating_modes (codes "from_storage") (codes "TechnologyFromStorage")
        (region_set ∷ storage_set ∷ []) none none
    ∷ []

abbrev pub storage_fields : List TzField
storage_fields =
    tz_field storage (codes "capex") (codes "CapitalCostStorage") (region_set ∷ year_set ∷ []) none
      none
    ∷ tz_field storage (codes "operating_life") (codes "OperationalLifeStorage") (region_set ∷ [])
        none none
    ∷ tz_field storage (codes "minimum_charge") (codes "MinStorageCharge")
        (region_set ∷ year_set ∷ []) (some (codes "0.0")) none
    ∷ tz_field storage (codes "initial_level") (codes "StorageLevelStart") (region_set ∷ [])
        (some (codes "0.0")) none
    ∷ tz_field storage (codes "residual_capacity") (codes "ResidualStorageCapacity")
        (region_set ∷ year_set ∷ []) (some (codes "0.0")) none
    ∷ tz_field storage (codes "max_discharge_rate") (codes "StorageMaxDischargeRate")
        (region_set ∷ []) none none
    ∷ tz_field storage (codes "max_charge_rate") (codes "StorageMaxChargeRate") (region_set ∷ [])
        none none
    ∷ tz_field storage (codes "storage_balance_day") (codes "StorageBalanceDay") (region_set ∷ [])
        (some (codes "0.0")) none
    ∷ tz_field storage (codes "storage_balance_season") (codes "StorageBalanceSeason")
        (region_set ∷ []) (some (codes "0.0")) none
    ∷ tz_field storage (codes "storage_balance_year") (codes "StorageBalanceYear") (region_set ∷ [])
        (some (codes "0.0")) none
    ∷ tz_field storage (codes "max_hours") (codes "StorageMaxHours") (region_set ∷ []) none none
    ∷ []

abbrev pub trade_fields : List TzField
trade_fields =
    tz_field trade (codes "trade_routes") (codes "TradeRoute")
      (region_set ∷ second_region ∷ year_set ∷ []) (some (codes "0.0")) none
    ∷ tz_field trade (codes "trade_loss") (codes "TradeLossBetweenRegions")
        (region_set ∷ second_region ∷ year_set ∷ []) (some (codes "0.0")) none
    ∷ tz_field trade (codes "residual_capacity") (codes "ResidualTradeCapacity")
        (region_set ∷ second_region ∷ year_set ∷ []) (some (codes "0.0")) none
    ∷ tz_field trade (codes "capex") (codes "CapitalCostTrade")
        (region_set ∷ second_region ∷ year_set ∷ []) (some (codes "0.00001")) none
    ∷ tz_field trade (codes "capacity_additional_max") (codes "TotalAnnualMaxTradeInvestment")
        (region_set ∷ second_region ∷ year_set ∷ []) none none
    ∷ tz_field trade (codes "operating_life") (codes "OperationalLifeTrade")
        (region_set ∷ second_region ∷ year_set ∷ []) (some (codes "1.0")) none
    ∷ tz_field trade (codes "cost_of_capital") (codes "DiscountRateTrade")
        (region_set ∷ second_region ∷ []) (some (codes "0.1")) none
    ∷ tz_field trade (codes "capacity_activity_unit_ratio") (codes "TradeCapacityToActivityUnit")
        (region_set ∷ second_region ∷ []) (some (codes "1.0")) none
    ∷ tz_field trade (codes "activity_annual_max") (codes "TotalTradeAnnualActivityUpperLimit")
        (region_set ∷ second_region ∷ year_set ∷ []) none none
    ∷ tz_field trade (codes "activity_annual_min") (codes "TotalTradeAnnualActivityLowerLimit")
        (region_set ∷ second_region ∷ year_set ∷ []) none none
    ∷ tz_field trade (codes "availability_factor") (codes "AvailabilityFactorTrade")
        (region_set ∷ second_region ∷ year_set ∷ []) none none
    ∷ tz_field trade (codes "capacity_factor_annual_min")
        (codes "TotalAnnualMinCapacityFactorTrade") (region_set ∷ second_region ∷ year_set ∷ [])
        none none
    ∷ []

-- `TZ_FIELDS`
abbrev pub tz_fields : List TzField
tz_fields =
    model_fields ++ time_definition_fields ++ region_groups_fields ++ commodities_fields
    ++ impacts_fields ++ technologies_fields ++ operating_modes_fields ++ storage_fields
    ++ trade_fields
