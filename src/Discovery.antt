-- ===== src/Discovery.antt =====
-- interop/di/discovery.py: the registry of plugins, and what each registration does to it. A class
-- is an identity, with the attributes of it that discovery looks at; how a class is imported is an
-- argument, a load that answers a class or fails.
pub mod Slots
pub mod Locations
pub mod Contract
pub mod Claims
pub mod Refinement
pub mod Heirs
pub mod Inheritance
pub mod Scanning
pub mod Walks
pub mod Asked
pub mod Order
pub mod Resolving
use tz_oss_interop.Prelude.{
  ℕ, nat_beq, Bool, true, false, Option, none, some, List, [], ◌∷◌, ◌++◌, if◌then◌else◌, contains,
  not, nat_eq, pair_eq, Eq, nat_beq_iff, ◌≡◌, refl, ap, ◌↔◌, ◌∙◌, sym, arith,
}
use tz_oss_interop.Prelude.Text.{Text, text_eq, codes}
use tz_oss_interop.Prelude.Dict.{Dict, lookup, insert, or_else}
use tz_oss_interop.Errors.{
  Result, ok, err, ◌>>=◌, plugin_collision, plugin_inheritance, missing_port, missing_key,
  not_a_bucket,
}

pub data Category : Type 0 where
  sources steps sinks validators adapters launchers : Category

-- The number of a category, by which two of them are compared.
abbrev pub number_of : Category → ℕ
number_of sources = 0
number_of steps = 1
number_of sinks = 2
number_of validators = 3
number_of adapters = 4
number_of launchers = 5

category_at : ℕ → Category
category_at n =
    if nat_beq n 0
    then sources
    else if nat_beq n 1
    then steps
    else if nat_beq n 2
    then sinks
    else if nat_beq n 3
    then validators
    else if nat_beq n 4
    then adapters
    else launchers

category_at-number_of : (c : Category) → category_at (number_of c) ≡ c
unfolding category_at
category_at-number_of sources = refl
category_at-number_of steps = refl
category_at-number_of sinks = refl
category_at-number_of validators = refl
category_at-number_of adapters = refl
category_at-number_of launchers = refl

number_of_injective : (c d : Category) → number_of c ≡ number_of d → c ≡ d
number_of_injective c d same =
    sym (category_at-number_of c) ∙ ap category_at same ∙ category_at-number_of d

abbrev pub category_beq : Category → Category → Bool
category_beq c d = nat_beq (number_of c) (number_of d)

pub category_beq_iff : (c d : Category) → (category_beq c d ≡ true) ↔ (c ≡ d)
category_beq_iff c d = (
  λ same. number_of_injective c d ((nat_beq_iff (number_of c) (number_of d)).0 same),
  λ same. (nat_beq_iff (number_of c) (number_of d)).1 (ap number_of same),
)

instance abbrev pub category_eq : Eq Category
category_eq = record { same = category_beq; agrees = category_beq_iff }

-- The value of a category.
abbrev pub category_value : Category → Text
category_value sources = codes "sources"
category_value steps = codes "steps"
category_value sinks = codes "sinks"
category_value validators = codes "validators"
category_value adapters = codes "adapters"
category_value launchers = codes "launchers"

-- The identities of the protocols that the program names.
abbrev pub source_protocol : ℕ
source_protocol = 0

abbrev pub step_protocol : ℕ
step_protocol = 1

abbrev pub sink_protocol : ℕ
sink_protocol = 2

abbrev pub validator_protocol : ℕ
validator_protocol = 3

abbrev pub launcher_protocol : ℕ
launcher_protocol = 4

-- `_REQUIRED_BASE[category]`
unfoldable pub required_base : Category → Result ℕ
required_base sources = ok source_protocol
required_base steps = ok step_protocol
required_base sinks = ok sink_protocol
required_base validators = ok validator_protocol
required_base adapters = err missing_key
required_base launchers = err missing_key

-- A class: `name` and `port` are `none` where the attribute is missing or is no string, no class;
-- `mro` holds the identities of the class and of its ancestors.
pub record PluginClass : Type 0 where
  pub identity : ℕ
  pub module_name : Text
  pub qualname : Text
  pub name : Option Text
  pub port : Option ℕ
  pub mro : List ℕ

pub record LazyPlugin : Type 0 where
  pub name : Text
  pub category : Category
  pub location : Text
  pub load : Result PluginClass
  pub resolved : Option PluginClass

-- `LazyPlugin(name, category, location, load)`, and the one whose class is at hand.
abbrev pub lazy_plugin : Category → Text → Text → Result PluginClass → LazyPlugin
lazy_plugin category name location load = record {
  name = name;
  category = category;
  location = location;
  load = load;
  resolved = none;
}

abbrev pub resolved_plugin : Category → Text → Text → PluginClass → LazyPlugin
resolved_plugin category name location cls = record {
  name = name;
  category = category;
  location = location;
  load = ok cls;
  resolved = some cls;
}

-- The check that a class inherits from the base of its category.
unfoldable pub require_base : Category → PluginClass → ℕ → Text → Result PluginClass
require_base category cls expected location =
    if contains cls.mro expected
    then ok cls
    else err (plugin_inheritance (category_value category) cls.qualname expected location)

-- `LazyPlugin.resolve`, with the plugin after it.
unfoldable pub resolve : LazyPlugin → Result (PluginClass × LazyPlugin)
resolve lazy = elim lazy.resolved [
  | some cls ↦ ok (cls, lazy)
  | none ↦ do
    cls ← lazy.load
    expected ← required_base lazy.category
    checked ← require_base lazy.category cls expected lazy.location
    ok (checked, record lazy { resolved = some checked })
]

pub record Registry : Type 0 where
  pub sources : Dict Text LazyPlugin
  pub steps : Dict Text LazyPlugin
  pub sinks : Dict Text LazyPlugin
  pub validators : Dict Text LazyPlugin
  pub adapters : Dict ℕ (Dict Text PluginClass)
  pub launchers : Dict Text PluginClass
  pub locations : Dict (Category × Text) Text
  pub adapter_locations : Dict (ℕ × Text) Text
  pub launcher_locations : Dict Text Text

abbrev pub empty_registry : Registry
empty_registry = record {
  sources = [];
  steps = [];
  sinks = [];
  validators = [];
  adapters = [];
  launchers = [];
  locations = [];
  adapter_locations = [];
  launcher_locations = [];
}

-- `Registry.pipeline_node_bucket`; the `ValueError` of the others is `not_a_bucket`.
unfoldable pub pipeline_node_bucket : Category → Registry → Result (Dict Text LazyPlugin)
pipeline_node_bucket sources registry = ok registry.sources
pipeline_node_bucket steps registry = ok registry.steps
pipeline_node_bucket sinks registry = ok registry.sinks
pipeline_node_bucket validators registry = ok registry.validators
pipeline_node_bucket adapters registry = err not_a_bucket
pipeline_node_bucket launchers registry = err not_a_bucket

-- `bucket[name] = lazy` in the bucket of a category.
unfoldable pub put_in_bucket : Category → Text → LazyPlugin → Registry → Registry
put_in_bucket sources name lazy registry = record registry {
  sources = insert name lazy registry.sources;
}
put_in_bucket steps name lazy registry = record registry { steps = insert name lazy registry.steps }
put_in_bucket sinks name lazy registry = record registry { sinks = insert name lazy registry.sinks }
put_in_bucket validators name lazy registry = record registry {
  validators = insert name lazy registry.validators;
}
put_in_bucket adapters name lazy registry = registry
put_in_bucket launchers name lazy registry = registry

-- What a registration under a taken name raises: it names where the name was first declared.
unfoldable pub collision {κ} :
    {K : Type κ} → ⦃e : Eq K⦄ → Category → K → Text → Dict K Text → Text → Result Registry
collision category key name locations location = elim (lookup key locations) [
  | none ↦ err missing_key
  | some prior ↦ err (plugin_collision (category_value category) name prior location)
]

-- The assignments of `_add_pipeline_node`, of `_add_adapter` and of `_add_launcher`.
unfoldable pub place_node : LazyPlugin → Registry → Registry
place_node lazy registry =
    let placed = put_in_bucket lazy.category lazy.name lazy registry in
    record placed { locations = insert (lazy.category, lazy.name) lazy.location registry.locations }

-- `Registry.adapter_bucket`
unfoldable pub adapter_bucket : ℕ → Registry → Dict Text PluginClass
adapter_bucket port registry = elim (lookup port registry.adapters) [
  | none ↦ []
  | some bucket ↦ bucket
]

unfoldable pub place_adapter : ℕ → Text → PluginClass → Text → Registry → Registry
place_adapter port name cls location registry = record registry {
  adapters = insert port (insert name cls (adapter_bucket port registry)) registry.adapters;
  adapter_locations = insert (port, name) location registry.adapter_locations;
}

unfoldable pub place_launcher : Text → PluginClass → Text → Registry → Registry
place_launcher name cls location registry = record registry {
  launchers = insert name cls registry.launchers;
  launcher_locations = insert name location registry.launcher_locations;
}

-- `Registry._add_pipeline_node`
unfoldable pub add_pipeline_node : LazyPlugin → Registry → Result Registry
add_pipeline_node lazy registry = pipeline_node_bucket lazy.category registry >>= λ bucket.
    elim (lookup lazy.name bucket) [
      | some taken ↦
          collision lazy.category (lazy.category, lazy.name) lazy.name registry.locations
            lazy.location
      | none ↦ ok (place_node lazy registry)
    ]

-- `Registry._add_adapter`, from the check of the port that the class declares.
unfoldable pub add_adapter_to : ℕ → PluginClass → Text → Text → Registry → Result Registry
add_adapter_to port cls name location registry =
    require_base adapters cls port location >>= λ checked.
    elim (lookup name (adapter_bucket port registry)) [
      | some taken ↦ collision adapters (port, name) name registry.adapter_locations location
      | none ↦ ok (place_adapter port name cls location registry)
    ]

-- `Registry._add_adapter`
unfoldable pub add_adapter : PluginClass → Text → Text → Registry → Result Registry
add_adapter cls name location registry = elim cls.port [
  | none ↦ err (missing_port cls.qualname location)
  | some port ↦ add_adapter_to port cls name location registry
]

-- `Registry._add_launcher`
unfoldable pub add_launcher : PluginClass → Text → Text → Registry → Result Registry
add_launcher cls name location registry =
    require_base launchers cls launcher_protocol location >>= λ checked.
    elim (lookup name registry.launchers) [
      | some taken ↦ collision launchers name name registry.launcher_locations location
      | none ↦ ok (place_launcher name cls location registry)
    ]

-- The eager registration of a pipeline node: its class is checked now, and stored resolved.
unfoldable pub add_resolved : Category → PluginClass → Text → Text → Registry → Result Registry
add_resolved category cls name location registry = do
  expected ← required_base category
  checked ← require_base category cls expected location
  add_pipeline_node (resolved_plugin category name location cls) registry

unfoldable pub add_named : Category → PluginClass → Text → Text → Registry → Result Registry
add_named adapters cls name location registry = add_adapter cls name location registry
add_named launchers cls name location registry = add_launcher cls name location registry
add_named sources cls name location registry = add_resolved sources cls name location registry
add_named steps cls name location registry = add_resolved steps cls name location registry
add_named sinks cls name location registry = add_resolved sinks cls name location registry
add_named validators cls name location registry = add_resolved validators cls name location registry

-- `Registry.add`: a class without a name, or with an empty one, is no plugin.
unfoldable pub add : Category → PluginClass → Text → Registry → Result Registry
add category cls location registry = elim cls.name [
  | none ↦ ok registry
  | some [] ↦ ok registry
  | some (c ∷ name) ↦ add_named category cls (c ∷ name) location registry
]

-- `Registry.add_lazy`
unfoldable pub add_lazy : Category → Text → Text → Result PluginClass → Registry → Result Registry
add_lazy category name location load registry =
    add_pipeline_node (lazy_plugin category name location load) registry
