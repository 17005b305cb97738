-- ===== src/Spec.antt =====
-- The manifests: `NodeSpec` and `PipelineSpec` of interop/core/runner.py, `LegSpec` and
-- `ComposedPipelineSpec` of interop/core/composition/document.py, and `NodeOverrides` of
-- interop/ports/inbound/overrides.py. A param's value is what YAML yields.
use tz_oss_interop.Prelude.Int.{ℤ}
use tz_oss_interop.Prelude.{Bool, List, []}
use tz_oss_interop.Prelude.Text.{Text}
use tz_oss_interop.Prelude.Dict.{Dict}

-- `Any`, as YAML yields it. The program looks into the strings alone: `number` is an integer or a
-- float, by its text.
mutual
  pub data Value : Type 0 where
    null : Value
    boolean : Bool → Value
    number : Text → Value
    text : Text → Value
    sequence : Items → Value
    mapping : Fields → Value

  pub data Items : Type 0 where
    nil : Items
    cons : Value → Items → Items

  pub data Fields : Type 0 where
    end : Fields
    field : Value → Value → Fields → Fields

abbrev pub Params : Type 0
Params = Dict Text Value

pub record NodeSpec : Type 0 where
  pub name : Text
  pub params : Params

pub record PipelineSpec : Type 0 where
  pub source_framework : Text
  pub destination_framework : Text
  pub source : NodeSpec
  pub steps : List NodeSpec
  pub sinks : List NodeSpec
  pub validators : List NodeSpec

pub record LegSpec : Type 0 where
  pub pipeline : Text
  pub params : Params

pub record ComposedPipelineSpec : Type 0 where
  pub source_framework : Text
  pub destination_framework : Text
  pub mappings : List LegSpec
  pub compose : List LegSpec

pub data PipelineDocument : Type 0 where
  single : PipelineSpec → PipelineDocument
  composed : ComposedPipelineSpec → PipelineDocument

pub record NodeOverrides : Type 0 where
  pub source : Params
  pub steps : Dict ℤ Params
  pub sinks : Dict ℤ Params

-- `NodeOverrides()`
abbrev pub no_overrides : NodeOverrides
no_overrides = record { source = []; steps = []; sinks = [] }
