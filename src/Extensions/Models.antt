-- ===== src/Extensions/Models.antt =====
-- The models of the kinds in interop/core/extensions.py. A number is its text.
pub mod Records
pub mod Stated
pub mod Companions
use tz_oss_interop.Prelude.{Bool, Option, List}
use tz_oss_interop.Prelude.Text.{Text}

pub data ReserveDirection : Type 0 where
  up down symmetric unknown : ReserveDirection

pub data ReserveKind : Type 0 where
  spinning non_spinning regulating replacement operating inertia unknown_kind : ReserveKind

pub data ConstraintSense : Type 0 where
  at_most exactly at_least : ConstraintSense

pub data ConstraintPeriod : Type 0 where
  horizon hour day week month year : ConstraintPeriod

pub record BusExtension : Type 0 where
  pub name : Text
  pub carrier : Option Text
  pub value_of_lost_load : Option Text

-- The fields that generators and storage share.
pub record ExpansionExtension : Type 0 where
  pub unit_size_mw : Option Text
  pub technical_life_years : Option Text
  pub fom_charge_per_mw_year : Option Text
  pub retirement_year : Option Text
  pub p_nom_max : Option Text
  pub p_nom_min : Option Text
  pub overnight_cost_per_mw : Option Text
  pub discount_rate : Option Text
  pub lifetime_years : Option Text
  pub build_year : Option Text

pub record GeneratorExtension : Type 0 where
  pub name : Text
  pub expansion : ExpansionExtension
  pub carrier : Option Text
  pub committable : Option Bool
  pub p_nom_extendable : Option Bool
  pub category : Option Text
  pub efficiency : Option Text
  pub marginal_cost_series : Option Text

pub record LoadExtension : Type 0 where
  pub name : Text
  pub carrier : Option Text
  pub type : Option Text
  pub sign : Option Text

pub record LineExtension : Type 0 where
  pub name : Text
  pub carrier : Option Text
  pub length : Option Text
  pub num_parallel : Option Text
  pub s_nom_extendable : Option Bool

pub record ControllableLineExtension : Type 0 where
  pub name : Text
  pub carrier : Option Text
  pub marginal_cost : Option Text
  pub p_nom_extendable : Option Bool
  pub p_max_pu : Option Text
  pub p_min_pu : Option Text
  pub has_time_varying_efficiency : Option Bool
  pub has_time_varying_p_max_pu : Option Bool
  pub has_time_varying_p_min_pu : Option Bool

pub record StorageExtension : Type 0 where
  pub name : Text
  pub expansion : ExpansionExtension
  pub p_nom_extendable : Option Bool
  pub max_hours : Option Text
  pub state_of_charge_initial : Option Text
  pub inflow_mw : Option Text
  pub inflow_series : Option Text
  pub rating_series : Option Text

pub record ReserveExtension : Type 0 where
  pub name : Text
  pub requirement_mw : Option Text
  pub requirement_series : Option Text
  pub contributing_generators : List Text
  pub direction : ReserveDirection
  pub kind : ReserveKind
  pub sustained_time_seconds : Option Text
  pub is_available : Option Bool
  pub max_participation_factor : Option Text
  pub shortage_price : Option Text
  pub is_mutually_exclusive : Option Bool

pub record ConstraintMember : Type 0 where
  pub name : Text
  pub member_class : Text
  pub coefficient : Option Text
  pub coefficient_property : Option Text

pub record ConstraintLimit : Type 0 where
  pub period : ConstraintPeriod
  pub value : Text
  pub unit : Option Text

pub record ConstraintExtension : Type 0 where
  pub name : Text
  pub sense : Option ConstraintSense
  pub limits : List ConstraintLimit
  pub members : List ConstraintMember
  pub applies_to_expansion_plan : Option Bool

pub record NetworkExtension : Type 0 where
  pub name : Text
  pub pypsa_version : Option Text
  pub objective : Option Text
