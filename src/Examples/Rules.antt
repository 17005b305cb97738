-- ===== src/Examples/Rules.antt =====
-- The addressing, the overrides and the rules of a chain, and the theorems about them at concrete
-- manifests.
use tz_oss_interop.Prelude.{◌≡◌, ◌≢◌, ◌<◌, refl, some, List, [], ◌∷◌, arith, All, length}
use tz_oss_interop.Prelude.Text.{codes, text_eq}
use tz_oss_interop.Prelude.Dict.{lookup}
use tz_oss_interop.Errors.{ok, ◌>>=◌}
use tz_oss_interop.CliOverrides.{apply_overrides}
use tz_oss_interop.Composition.Addressing.{parse_reference, read_param, set_param, apply_leg_params}
use tz_oss_interop.Composition.References.Dereference.{
  dereference, read_param-resolve_leg_references,
}
use tz_oss_interop.Composition.Legs.{PlannedLeg}
use tz_oss_interop.Composition.Routing.{translation_indexes}
use tz_oss_interop.Composition.References.{resolve_leg_references}
use tz_oss_interop.Spec.{text}
use tz_oss_interop.Examples.Manifests.{to_sienna, to_pypsa, node, hand_over}
use tz_oss_interop.Prelude.{ℕ, zero, suc, ◌↔◌, if◌then◌else◌}
use tz_oss_interop.Prelude.Dict.{IsDict}
use tz_oss_interop.Prelude.Int.{pos, int_eq}
use tz_oss_interop.Spec.{PipelineSpec, NodeOverrides}
use tz_oss_interop.CliOverrides.{params_at}
use tz_oss_interop.CliOverrides.Effect.{
  IsEffect, IsOverrides, InRange, apply_overrides_iff, apply_overrides-IsEffect,
}
use tz_oss_interop.Composition.Addressing.{
  ParamAddress, Reference, parse_param_address, show_address, show_reference, nodes_of,
}
use tz_oss_interop.Composition.Addressing.Syntax.{
  IsAddress, IsReference, parse_param_address-show_address, parse_reference-show_reference,
  show_reference-parse_reference,
}
use tz_oss_interop.Composition.Addressing.Access.{same_address, read_param-set_param}
use tz_oss_interop.Composition.Addressing.LegParams.{set_or_read, read_param-apply_leg_params}
use tz_oss_interop.Composition.Rules.{override_leg, apply_run_overrides}
use tz_oss_interop.Composition.Rules.RunOverrides.{apply_run_overrides_lone}
use tz_oss_interop.Composition.Legs.{planned_leg}
use tz_oss_interop.Examples.Composing.{program}

abbrev out : ParamAddress
out = record { node = codes "write"; param = codes "out" }

abbrev file : ParamAddress
file = record { node = codes "emit"; param = codes "file" }

abbrev moved : PipelineSpec
moved = record to_pypsa {
  sinks = node (codes "write") ((codes "out", text (codes "b.nc")) ∷ []) ∷ [];
}

set_out : set_param (codes "s2p") to_pypsa out (text (codes "b.nc")) ≡ ok moved
unfolding program
set_out = refl

read_param-set_param_example : read_param (codes "s2p") moved out ≡ (
    if same_address out out
    then ok (text (codes "b.nc"))
    else read_param (codes "s2p") to_pypsa out)
read_param-set_param_example =
    read_param-set_param (codes "s2p") to_pypsa moved out out (text (codes "b.nc")) set_out

abbrev handed_over : PipelineSpec
handed_over = record to_sienna {
  sinks = node (codes "emit") ((codes "file", text (codes "system.json")) ∷ []) ∷ [];
}

set_hand_over : apply_leg_params (codes "p2s") to_sienna hand_over ≡ ok handed_over
unfolding program
set_hand_over = refl

hand_over-IsDict : IsDict hand_over
hand_over-IsDict = (refl, tt)

file-IsAddress : IsAddress file
file-IsAddress = record {
  node = record { nonempty = refl; free = refl };
  param = record { nonempty = refl; free = refl };
}

read_param-apply_leg_params_example :
    read_param (codes "p2s") handed_over file
    ≡ set_or_read (lookup (show_address file) hand_over) (read_param (codes "p2s") to_sienna file)
read_param-apply_leg_params_example =
    read_param-apply_leg_params (codes "p2s") to_sienna handed_over hand_over file hand_over-IsDict
      file-IsAddress set_hand_over

abbrev to_file : Reference
to_file = record { pipeline = codes "p2s"; address = file }

to_file-IsReference : IsReference to_file
to_file-IsReference = record {
  pipeline = record { nonempty = refl; free = refl };
  address = file-IsAddress;
}

parse_reference-show_reference_example :
    parse_reference (text (show_reference to_file)) ≡ ok (some to_file)
parse_reference-show_reference_example = parse_reference-show_reference to_file to_file-IsReference

parsed : parse_reference (text (codes "$p2s.emit.file")) ≡ ok (some to_file)
unfolding program
parsed = refl

show_reference-parse_reference_example :
    (text (codes "$p2s.emit.file") ≡ text (show_reference to_file)) × IsReference to_file
show_reference-parse_reference_example =
    show_reference-parse_reference (text (codes "$p2s.emit.file")) to_file parsed

abbrev two_legs : List PlannedLeg
two_legs = planned_leg (codes "p2s") handed_over ∷ planned_leg (codes "s2p") to_pypsa ∷ []

abbrev given : NodeOverrides
given = record {
  source = (codes "path", text (codes "other.xml")) ∷ [];
  steps = (pos 0, (codes "fast", text (codes "yes")) ∷ []) ∷ [];
  sinks = [];
}

steps_given : given.steps ≢ []
steps_given = λ e. cc e

are_two : 1 < length (translation_indexes two_legs)
unfolding program
are_two = ground arith

apply_overrides_iff_example :
    ((spec' : PipelineSpec) × (apply_overrides to_sienna given ≡ ok spec'))
    ↔ InRange to_sienna given
apply_overrides_iff_example = apply_overrides_iff to_sienna given

abbrev lone_leg : PlannedLeg
lone_leg = planned_leg (codes "p2s") to_sienna

apply_run_overrides_lone_example :
    apply_run_overrides (lone_leg ∷ []) given ≡ (override_leg given lone_leg >>= λ l. ok (l ∷ []))
apply_run_overrides_lone_example = apply_run_overrides_lone lone_leg given refl

parse_param_address-show_address_example : parse_param_address (show_address file) ≡ ok file
parse_param_address-show_address_example = parse_param_address-show_address file file-IsAddress

abbrev given_spec : PipelineSpec
given_spec = record to_sienna {
  source = node (codes "stage") ((codes "path", text (codes "other.xml")) ∷ []);
  steps = node (codes "map") ((codes "fast", text (codes "yes")) ∷ []) ∷ [];
}

overriding : apply_overrides to_sienna given ≡ ok given_spec
unfolding program
overriding = refl

step_params-IsDict : (i : ℕ) → IsDict (params_at given.steps (pos i))
unfolding lookup
step_params-IsDict zero = (refl, tt)
step_params-IsDict (suc i) = ground arith

given-IsOverrides : IsOverrides given
unfolding lookup
given-IsOverrides = record { source = (refl, tt); steps = step_params-IsDict; sinks = λ i. tt }

apply_overrides-IsEffect_example : IsEffect to_sienna given_spec given
apply_overrides-IsEffect_example =
    apply_overrides-IsEffect to_sienna given_spec given given-IsOverrides overriding

abbrev reading : PlannedLeg
reading = planned_leg (codes "s2p") (record to_pypsa {
  source = node (codes "read") ((codes "file", text (codes "$p2s.emit.file")) ∷ []);
})

abbrev has_read : PlannedLeg
has_read = planned_leg (codes "s2p") (record to_pypsa {
  source = node (codes "read") ((codes "file", text (codes "system.json")) ∷ []);
})

abbrev earlier : List PlannedLeg
earlier = planned_leg (codes "p2s") handed_over ∷ reading ∷ []

resolving : resolve_leg_references earlier reading ≡ ok has_read
unfolding program
resolving = refl

abbrev read_file : ParamAddress
read_file = record { node = codes "read"; param = codes "file" }

was : read_param (codes "s2p") reading.spec read_file ≡ ok (text (codes "$p2s.emit.file"))
unfolding program
was = refl

All-dicts : All (λ n. IsDict n.params) (nodes_of reading.spec)
All-dicts = ((refl, tt), ((refl, tt), tt))

read_param-resolve_leg_references_example :
    read_param (codes "s2p") has_read.spec read_file
    ≡ dereference earlier (text (codes "$p2s.emit.file"))
read_param-resolve_leg_references_example =
    read_param-resolve_leg_references earlier reading has_read read_file
      (text (codes "$p2s.emit.file")) All-dicts resolving was
