-- ===== src/Discovery/Contract.antt =====
-- The contract of the registry: one map from slots to what is declared there and where, on which a
-- registration takes a free slot or is refused; and what it means that a registry implements it.
use tz_oss_interop.Prelude.{
  ℕ, Bool, true, false, Option, none, some, List, [], ◌∷◌, if◌then◌else◌, ◌≡◌, pair_eq, nat_eq,
}
use tz_oss_interop.Prelude.Text.{Text, text_eq}
use tz_oss_interop.Errors.{
  Result, Error, ok, err, ◌>>=◌, plugin_collision, missing_port, not_a_bucket, fold_result,
}
use tz_oss_interop.Discovery.{
  Category, sources, steps, sinks, validators, adapters, launchers, category_eq, category_value,
  launcher_protocol, PluginClass, lazy_plugin, resolved_plugin, Registry, empty_registry,
  required_base, require_base, add, add_lazy,
}
use tz_oss_interop.Discovery.Slots.{
  Slot, node_slot, adapter_slot, launcher_slot, slot_beq, Entry, deferred, imported, map_option,
  entry_at, location_at,
}

-- A registration asked for: of a class, of a plugin that is imported on first use, or one that
-- cannot be made because reading the plugin failed.
pub data Registration : Type 0 where
  eager : (category : Category) (cls : PluginClass) (location : Text) → Registration
  lazily : (category : Category) (name location : Text) (load : Result PluginClass) → Registration
  failing : (raised_error : Error) → Registration

unfoldable pub register : Registry → Registration → Result Registry
register registry (eager category cls location) = add category cls location registry
register registry (lazily category name location load) =
    add_lazy category name location load registry
register registry (failing raised_error) = err raised_error

-- The contract: what is declared at each slot, and where.
abbrev pub Declared : Type 0
Declared = Slot → Option (Entry × Text)

unfoldable pub claim : Category → Text → Slot → Entry → Text → Declared → Result Declared
claim category name slot entry location declared = elim (declared slot) [
  | some (old, first_location) ↦
      err (plugin_collision (category_value category) name first_location location)
  | none ↦ ok (λ s. if slot_beq slot s then some (entry, location) else declared s)
]

-- What each registration asks for: the slot, and what to put there.
unfoldable pub declare_adapter_to : ℕ → PluginClass → Text → Text → Declared → Result Declared
declare_adapter_to port cls name location declared =
    require_base adapters cls port location >>= λ checked.
    claim adapters name (adapter_slot port name) (imported cls) location declared

unfoldable pub declare_adapter : PluginClass → Text → Text → Declared → Result Declared
declare_adapter cls name location declared = elim cls.port [
  | none ↦ err (missing_port cls.qualname location)
  | some port ↦ declare_adapter_to port cls name location declared
]

unfoldable pub declare_launcher : PluginClass → Text → Text → Declared → Result Declared
declare_launcher cls name location declared =
    require_base launchers cls launcher_protocol location >>= λ checked.
    claim launchers name (launcher_slot name) (imported cls) location declared

unfoldable pub declare_node : Category → PluginClass → Text → Text → Declared → Result Declared
declare_node category cls name location declared = do
  expected ← required_base category
  checked ← require_base category cls expected location
  claim category name (node_slot category name)
      (deferred (resolved_plugin category name location cls)) location declared

unfoldable pub declare_class : Category → PluginClass → Text → Text → Declared → Result Declared
declare_class adapters = declare_adapter
declare_class launchers = declare_launcher
declare_class sources = declare_node sources
declare_class steps = declare_node steps
declare_class sinks = declare_node sinks
declare_class validators = declare_node validators

unfoldable pub is_pipeline_node : Category → Bool
is_pipeline_node adapters = false
is_pipeline_node launchers = false
is_pipeline_node category = true

unfoldable pub declare : Declared → Registration → Result Declared
declare declared (eager category cls location) = elim cls.name [
  | none ↦ ok declared
  | some [] ↦ ok declared
  | some (c ∷ name) ↦ declare_class category cls (c ∷ name) location declared
]
declare declared (lazily category name location load) =
    if is_pipeline_node category
    then claim category name (node_slot category name)
        (deferred (lazy_plugin category name location load)) location declared
    else err not_a_bucket
declare declared (failing raised_error) = err raised_error

-- The registry holds, slot by slot, what is declared, with the same location.
pub record Implements (registry : Registry) (declared : Declared) : Type 0 where
  pub entries : (s : Slot) → entry_at registry s ≡ map_option (λ d. d.0) (declared s)
  pub places : (s : Slot) → location_at registry s ≡ map_option (λ d. d.1) (declared s)

-- Two outcomes agree: both fail with the same error, or both return.
pub data Refines : Result Registry → Result Declared → Type 0 where
  both_return :
      {registry : Registry} {declared : Declared}
      → Implements registry declared
      → Refines (ok registry) (ok declared)
  both_fail : (raised_error : Error) → Refines (err raised_error) (err raised_error)

-- `Registry()`, after registrations.
unfoldable pub register_all : List Registration → Result Registry
register_all registrations = fold_result register empty_registry registrations

unfoldable pub declare_all : List Registration → Result Declared
declare_all registrations = fold_result declare (λ s. none) registrations
