-- ===== src/Composition/Addressing/LegParams.antt =====
-- `apply_leg_params` of addressing.py: what a pipeline is once a leg's params are set on it.
use tz_oss_interop.Prelude.{
  ◌≡◌, refl, sym, subst, ◌∙◌, ap, ap₂, Option, none, some, List, [], ◌∷◌, map, arith, ◌==◌,
}
use tz_oss_interop.Prelude.Text.{Text, text_eq, text_beq_iff}
use tz_oss_interop.Prelude.Dict.{lookup, lookup_absent, IsDict}
use tz_oss_interop.Errors.{Result, ok, >>=-eq-ok}
use tz_oss_interop.Spec.{Value, Params, NodeSpec, PipelineSpec}
use tz_oss_interop.Composition.Addressing.{
  ParamAddress, show_address, parse_param_address, read_param, rewrite, with_param, set_param,
  apply_leg_param, apply_leg_params,
}
use tz_oss_interop.Composition.Addressing.Syntax.{
  IsAddress, parse_param_address-show_address, show_address-parse_param_address,
}
use tz_oss_interop.Composition.Addressing.Access.{
  same_address, name-rewrite, set_param-eq-ok, read_param-set_param,
}

abbrev pub names : List NodeSpec → List Text
names ns = map (λ n. n.name) ns

-- Two pipelines that differ in the params of their nodes alone.
pub record SameShape (s t : PipelineSpec) : Type 0 where
  pub source_framework : s.source_framework ≡ t.source_framework
  pub destination_framework : s.destination_framework ≡ t.destination_framework
  pub source : s.source.name ≡ t.source.name
  pub steps : names s.steps ≡ names t.steps
  pub sinks : names s.sinks ≡ names t.sinks
  pub validators : s.validators ≡ t.validators

pub SameShape-refl : (s : PipelineSpec) → SameShape s s
SameShape-refl s = record {
  source_framework = refl;
  destination_framework = refl;
  source = refl;
  steps = refl;
  sinks = refl;
  validators = refl;
}

pub SameShape-trans : {s t u : PipelineSpec} → SameShape s t → SameShape t u → SameShape s u
SameShape-trans h k = record {
  source_framework = h.source_framework ∙ k.source_framework;
  destination_framework = h.destination_framework ∙ k.destination_framework;
  source = h.source ∙ k.source;
  steps = h.steps ∙ k.steps;
  sinks = h.sinks ∙ k.sinks;
  validators = h.validators ∙ k.validators;
}

names-map-rewrite :
    (a : ParamAddress) (v : Value) (ns : List NodeSpec) → names (map (rewrite a v) ns) ≡ names ns
names-map-rewrite a v [] = refl
names-map-rewrite a v (n ∷ ns) = ap₂ ◌∷◌ (name-rewrite a v n) (names-map-rewrite a v ns)

with_param-SameShape :
    (s : PipelineSpec) (a : ParamAddress) (v : Value) → SameShape s (with_param s a v)
unfolding with_param
with_param-SameShape s a v = record {
  source_framework = refl;
  destination_framework = refl;
  source = sym (name-rewrite a v s.source);
  steps = sym (names-map-rewrite a v s.steps);
  sinks = sym (names-map-rewrite a v s.sinks);
  validators = refl;
}

pub set_param-SameShape :
    (pipeline : Text) (s t : PipelineSpec) (a : ParamAddress) (v : Value)
    → set_param pipeline s a v ≡ ok t
    → SameShape s t
set_param-SameShape pipeline s t a v h =
    let (n, _, e) = set_param-eq-ok pipeline s a v h in
    subst (SameShape s) (sym e) (with_param-SameShape s a v)

apply_leg_param-eq-ok :
    (pipeline : Text) (s : PipelineSpec) (key : Text) (v : Value) {t : PipelineSpec}
    → apply_leg_param pipeline s (key, v) ≡ ok t
    → (a : ParamAddress) × (parse_param_address key ≡ ok a) × (set_param pipeline s a v ≡ ok t)
unfolding apply_leg_param
apply_leg_param-eq-ok pipeline s key v h =
    >>=-eq-ok (parse_param_address key) (λ a. set_param pipeline s a v) h

apply_leg_params-cons :
    (pipeline : Text) (s : PipelineSpec) (key : Text) (v : Value) (params : Params)
    {t : PipelineSpec}
    → apply_leg_params pipeline s ((key, v) ∷ params) ≡ ok t
    → (a : ParamAddress) × (u : PipelineSpec) × (parse_param_address key ≡ ok a)
      × (set_param pipeline s a v ≡ ok u)
      × (apply_leg_params pipeline u params ≡ ok t)
unfolding apply_leg_params
apply_leg_params-cons pipeline s key v params h =
    let (u, first, rest) =
      >>=-eq-ok (apply_leg_param pipeline s (key, v)) (λ u. apply_leg_params pipeline u params) h in
    let (a, parsed, put) = apply_leg_param-eq-ok pipeline s key v first in (a, u, parsed, put, rest)

-- Setting a leg's params changes neither the frameworks, nor the names and the order of the
-- nodes, nor the validators.
pub apply_leg_params-SameShape :
    (pipeline : Text) (s t : PipelineSpec) (params : Params)
    → apply_leg_params pipeline s params ≡ ok t
    → SameShape s t
unfolding apply_leg_params
apply_leg_params-SameShape pipeline s t [] h = subst (SameShape s) (cc h) (SameShape-refl s)
apply_leg_params-SameShape pipeline s t ((key, v) ∷ params) h =
    let (a, u, _, put, rest) = apply_leg_params-cons pipeline s key v params h in
    SameShape-trans (set_param-SameShape pipeline s u a v put)
      (apply_leg_params-SameShape pipeline u t params rest)

-- Two addresses are one exactly where their printed forms are.
pub ==-show_address :
    (a b : ParamAddress)
    → IsAddress a
    → IsAddress b
    → (show_address a == show_address b) ≡ same_address a b
==-show_address a b ha hb =
    let back : show_address a ≡ show_address b → ok a ≡ ok b = λ e.
      sym (parse_param_address-show_address a ha)
      ∙ ap parse_param_address e
      ∙ parse_param_address-show_address b hb in
    ground (
      arith,
      back,
      text_beq_iff (show_address a) (show_address b),
      text_beq_iff a.node b.node,
      text_beq_iff a.param b.param,
    )

abbrev pub set_or_read : Option Value → Result Value → Result Value
set_or_read none before = before
set_or_read (some v) before = ok v

-- After a leg's params are set, reading an address gives the value that the params state for it
-- and, where they state none, what the pipeline gave before.
pub read_param-apply_leg_params :
    (pipeline : Text) (s t : PipelineSpec) (params : Params) (b : ParamAddress)
    → IsDict params
    → IsAddress b
    → apply_leg_params pipeline s params ≡ ok t
    → read_param pipeline t b
      ≡ set_or_read (lookup (show_address b) params) (read_param pipeline s b)
unfolding lookup apply_leg_params
read_param-apply_leg_params pipeline s t [] b d hb h = ap (λ u. read_param pipeline u b) (cc h)
read_param-apply_leg_params pipeline s t ((key, v) ∷ params) b d hb h =
    let (a, u, parsed, put, rest) = apply_leg_params-cons pipeline s key v params h in
    let (shown, ha) = show_address-parse_param_address key a parsed in
    let same : (key == show_address b) ≡ same_address a b =
      ap (λ k. k == show_address b) shown ∙ ==-show_address a b ha hb in
    ground (
      arith,
      same,
      text_beq_iff key (show_address b),
      lookup_absent key params,
      read_param-set_param pipeline s u a b v put,
      read_param-apply_leg_params pipeline u t params b d.1 hb rest,
    )
