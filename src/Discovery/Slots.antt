-- ===== src/Discovery/Slots.antt =====
-- What a registry holds at a slot, a name among the names that must differ, and the places where
-- the names were declared.
use tz_oss_interop.Prelude.{ℕ, Bool, false, Option, none, some, [], ◌&&◌, ◌==◌, nat_eq, pair_eq}
use tz_oss_interop.Prelude.Text.{Text, text_eq}
use tz_oss_interop.Prelude.Dict.{Dict, lookup}
use tz_oss_interop.Discovery.{
  Category, sources, steps, sinks, validators, adapters, launchers, category_eq, PluginClass,
  LazyPlugin, Registry, adapter_bucket,
}

-- A name is taken per category of pipeline nodes, per port of adapters, and among the launchers.
pub data Slot : Type 0 where
  node_slot : (category : Category) (name : Text) → Slot
  adapter_slot : (port : ℕ) (name : Text) → Slot
  launcher_slot : (name : Text) → Slot

abbrev pub slot_beq : Slot → Slot → Bool
slot_beq (node_slot c m) (node_slot d n) = c == d && m == n
slot_beq (adapter_slot p m) (adapter_slot q n) = p == q && m == n
slot_beq (launcher_slot m) (launcher_slot n) = m == n
slot_beq _ _ = false

-- What is registered at a slot.
pub data Entry : Type 0 where
  deferred : (lazy : LazyPlugin) → Entry
  imported : (cls : PluginClass) → Entry

unfoldable pub bucket_at : Category → Registry → Dict Text LazyPlugin
bucket_at sources registry = registry.sources
bucket_at steps registry = registry.steps
bucket_at sinks registry = registry.sinks
bucket_at validators registry = registry.validators
bucket_at adapters registry = []
bucket_at launchers registry = []

abbrev pub map_option {ℓ κ} : {A : Type ℓ} {B : Type κ} → (A → B) → Option A → Option B
map_option f none = none
map_option f (some a) = some (f a)

unfoldable pub entry_at : Registry → Slot → Option Entry
entry_at registry (node_slot category name) =
    map_option deferred (lookup name (bucket_at category registry))
entry_at registry (adapter_slot port name) =
    map_option imported (lookup name (adapter_bucket port registry))
entry_at registry (launcher_slot name) = map_option imported (lookup name registry.launchers)

unfoldable pub location_at : Registry → Slot → Option Text
location_at registry (node_slot category name) = lookup (category, name) registry.locations
location_at registry (adapter_slot port name) = lookup (port, name) registry.adapter_locations
location_at registry (launcher_slot name) = lookup name registry.launcher_locations
