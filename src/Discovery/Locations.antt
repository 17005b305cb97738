-- ===== src/Discovery/Locations.antt =====
-- What each assignment of a registration does to the slots of a registry.
use tz_oss_interop.Prelude.{
  ℕ, Bool, true, false, Option, none, some, if◌then◌else◌, ◌&&◌, ◌==◌, ◌≡◌, refl, arith, nat_eq,
  pair_eq,
}
use tz_oss_interop.Prelude.Text.{Text, text_eq}
use tz_oss_interop.Prelude.Dict.{Dict, lookup, insert, lookup-insert}
use tz_oss_interop.Errors.{ok}
use tz_oss_interop.Discovery.{
  Category, sources, steps, sinks, validators, adapters, launchers, category_eq, PluginClass,
  LazyPlugin, Registry, put_in_bucket, pipeline_node_bucket, adapter_bucket, place_node,
  place_adapter, place_launcher, empty_registry,
}
use tz_oss_interop.Discovery.Slots.{
  Slot, node_slot, adapter_slot, launcher_slot, slot_beq, Entry, deferred, imported, bucket_at,
  map_option, entry_at, location_at,
}

pub bucket_at-put_in_bucket :
    (c d : Category) (name : Text) (lazy : LazyPlugin) (registry : Registry)
    {bucket : Dict Text LazyPlugin}
    → pipeline_node_bucket c registry ≡ ok bucket
    → bucket_at d (put_in_bucket c name lazy registry)
      ≡ (if c == d then insert name lazy (bucket_at d registry) else bucket_at d registry)
unfolding pipeline_node_bucket put_in_bucket bucket_at
bucket_at-put_in_bucket c d name lazy registry found = ground arith

-- `after` is `before` with one more slot taken.
pub record Extends (slot : Slot) (entry : Entry) (location : Text) (before after : Registry)
    : Type 0 where
  pub entries :
      (s : Slot) → entry_at after s ≡ (if slot_beq slot s then some entry else entry_at before s)
  pub places :
      (s : Slot)
      → location_at after s ≡ (if slot_beq slot s then some location else location_at before s)

pub entry_at-empty_registry : (s : Slot) → entry_at empty_registry s ≡ none
unfolding entry_at bucket_at adapter_bucket lookup
entry_at-empty_registry (node_slot sources name) = refl
entry_at-empty_registry (node_slot steps name) = refl
entry_at-empty_registry (node_slot sinks name) = refl
entry_at-empty_registry (node_slot validators name) = refl
entry_at-empty_registry (node_slot adapters name) = refl
entry_at-empty_registry (node_slot launchers name) = refl
entry_at-empty_registry (adapter_slot port name) = refl
entry_at-empty_registry (launcher_slot name) = refl

pub location_at-empty_registry : (s : Slot) → location_at empty_registry s ≡ none
unfolding location_at lookup
location_at-empty_registry (node_slot category name) = refl
location_at-empty_registry (adapter_slot port name) = refl
location_at-empty_registry (launcher_slot name) = refl

lookup-place_adapter :
    (p q : ℕ) (name : Text) (cls : PluginClass) (location : Text) (registry : Registry)
    → adapter_bucket q (place_adapter p name cls location registry)
      ≡ (if p == q then insert name cls (adapter_bucket q registry) else adapter_bucket q registry)
unfolding adapter_bucket place_adapter
lookup-place_adapter p q name cls location registry =
    ground
      (arith, lookup-insert p q (insert name cls (adapter_bucket p registry)) registry.adapters)

-- What the assignment to a bucket of pipeline nodes leaves as it is.
abbrev KeepsOthers : Registry → Registry → Type 0
KeepsOthers before after =
    (after.adapters ≡ before.adapters)
    × (after.launchers ≡ before.launchers)
    × (after.adapter_locations ≡ before.adapter_locations)
    × (after.launcher_locations ≡ before.launcher_locations)

put_in_bucket-KeepsOthers :
    (c : Category) (name : Text) (lazy : LazyPlugin) (registry : Registry)
    → KeepsOthers registry (put_in_bucket c name lazy registry)
unfolding put_in_bucket
put_in_bucket-KeepsOthers sources name lazy registry = (refl, refl, refl, refl)
put_in_bucket-KeepsOthers steps name lazy registry = (refl, refl, refl, refl)
put_in_bucket-KeepsOthers sinks name lazy registry = (refl, refl, refl, refl)
put_in_bucket-KeepsOthers validators name lazy registry = (refl, refl, refl, refl)
put_in_bucket-KeepsOthers adapters name lazy registry = (refl, refl, refl, refl)
put_in_bucket-KeepsOthers launchers name lazy registry = (refl, refl, refl, refl)

bucket_at-place_node :
    (lazy : LazyPlugin) (d : Category) (registry : Registry)
    → bucket_at d (place_node lazy registry)
      ≡ bucket_at d (put_in_bucket lazy.category lazy.name lazy registry)
unfolding bucket_at place_node
bucket_at-place_node lazy sources registry = refl
bucket_at-place_node lazy steps registry = refl
bucket_at-place_node lazy sinks registry = refl
bucket_at-place_node lazy validators registry = refl
bucket_at-place_node lazy adapters registry = refl
bucket_at-place_node lazy launchers registry = refl

map_option-if {ℓ κ} :
    {A : Type ℓ} {B : Type κ} (f : A → B) (b : Bool) (x y : Option A)
    → map_option f (if b then x else y) ≡ (if b then map_option f x else map_option f y)
map_option-if f true x y = refl
map_option-if f false x y = refl

lookup_in-insert {ℓ} :
    {V : Type ℓ} (f : V → Entry) (b : Bool) (k j : Text) (v : V) (d : Dict Text V)
    → map_option f (lookup j (if b then insert k v d else d))
      ≡ (if b && k == j then some (f v) else map_option f (lookup j d))
lookup_in-insert f true k j v d =
    rw (lookup-insert k j v d) (map_option-if f (k == j) (some v) (lookup j d))
lookup_in-insert f false k j v d = refl

entry_at-place_node :
    (lazy : LazyPlugin) (registry : Registry) (s : Slot) {bucket : Dict Text LazyPlugin}
    → pipeline_node_bucket lazy.category registry ≡ ok bucket
    → entry_at (place_node lazy registry) s ≡ (
        if slot_beq (node_slot lazy.category lazy.name) s
        then some (deferred lazy)
        else entry_at registry s)
unfolding entry_at
entry_at-place_node lazy registry (node_slot d n) found =
    rw
      (
        bucket_at-place_node lazy d registry,
        bucket_at-put_in_bucket lazy.category d lazy.name lazy registry found,
      )
      (lookup_in-insert deferred (lazy.category == d) lazy.name n lazy (bucket_at d registry))
entry_at-place_node lazy registry (adapter_slot q n) found =
    unfold place_node adapter_bucket in
    rw ((put_in_bucket-KeepsOthers lazy.category lazy.name lazy registry).0) refl
entry_at-place_node lazy registry (launcher_slot n) found =
    unfold place_node in
    rw ((put_in_bucket-KeepsOthers lazy.category lazy.name lazy registry).1) refl

location_at-place_node :
    (lazy : LazyPlugin) (registry : Registry) (s : Slot)
    → location_at (place_node lazy registry) s ≡ (
        if slot_beq (node_slot lazy.category lazy.name) s
        then some lazy.location
        else location_at registry s)
unfolding location_at place_node
location_at-place_node lazy registry (node_slot d n) =
    lookup-insert (lazy.category, lazy.name) (d, n) lazy.location registry.locations
location_at-place_node lazy registry (adapter_slot q n) =
    rw ((put_in_bucket-KeepsOthers lazy.category lazy.name lazy registry).2) refl
location_at-place_node lazy registry (launcher_slot n) =
    rw ((put_in_bucket-KeepsOthers lazy.category lazy.name lazy registry).3) refl

pub place_node-Extends :
    (lazy : LazyPlugin) (registry : Registry) {bucket : Dict Text LazyPlugin}
    → pipeline_node_bucket lazy.category registry ≡ ok bucket
    → Extends
        (node_slot lazy.category lazy.name)
        (deferred lazy)
        lazy.location
        registry
        (place_node lazy registry)
place_node-Extends lazy registry found = record {
  entries = λ s. entry_at-place_node lazy registry s found;
  places = λ s. location_at-place_node lazy registry s;
}

module _ (port : ℕ) (name : Text) (cls : PluginClass) (location : Text) (registry : Registry) where
  bucket_at-place_adapter :
      (d : Category)
      → bucket_at d (place_adapter port name cls location registry) ≡ bucket_at d registry
  unfolding bucket_at place_adapter
  bucket_at-place_adapter sources = refl
  bucket_at-place_adapter steps = refl
  bucket_at-place_adapter sinks = refl
  bucket_at-place_adapter validators = refl
  bucket_at-place_adapter adapters = refl
  bucket_at-place_adapter launchers = refl

  entry_at-place_adapter :
      (s : Slot)
      → entry_at (place_adapter port name cls location registry) s
        ≡ (if slot_beq (adapter_slot port name) s then some (imported cls) else entry_at registry s)
  unfolding entry_at
  entry_at-place_adapter (node_slot d n) = rw (bucket_at-place_adapter d) refl
  entry_at-place_adapter (adapter_slot q n) =
      rw (lookup-place_adapter port q name cls location registry)
        (lookup_in-insert imported (port == q) name n cls (adapter_bucket q registry))
  entry_at-place_adapter (launcher_slot n) = unfold place_adapter in refl

  location_at-place_adapter :
      (s : Slot)
      → location_at (place_adapter port name cls location registry) s
        ≡ (if slot_beq (adapter_slot port name) s then some location else location_at registry s)
  unfolding location_at place_adapter
  location_at-place_adapter (node_slot d n) = refl
  location_at-place_adapter (adapter_slot q n) =
      lookup-insert (port, name) (q, n) location registry.adapter_locations
  location_at-place_adapter (launcher_slot n) = refl

  pub place_adapter-Extends :
      Extends
        (adapter_slot port name)
        (imported cls)
        location
        registry
        (place_adapter port name cls location registry)
  place_adapter-Extends = record {
    entries = entry_at-place_adapter;
    places = location_at-place_adapter;
  }

module _ (name : Text) (cls : PluginClass) (location : Text) (registry : Registry) where
  bucket_at-place_launcher :
      (d : Category)
      → bucket_at d (place_launcher name cls location registry) ≡ bucket_at d registry
  unfolding bucket_at place_launcher
  bucket_at-place_launcher sources = refl
  bucket_at-place_launcher steps = refl
  bucket_at-place_launcher sinks = refl
  bucket_at-place_launcher validators = refl
  bucket_at-place_launcher adapters = refl
  bucket_at-place_launcher launchers = refl

  entry_at-place_launcher :
      (s : Slot)
      → entry_at (place_launcher name cls location registry) s
        ≡ (if slot_beq (launcher_slot name) s then some (imported cls) else entry_at registry s)
  unfolding entry_at
  entry_at-place_launcher (node_slot d n) = rw (bucket_at-place_launcher d) refl
  entry_at-place_launcher (adapter_slot q n) = unfold place_launcher adapter_bucket in refl
  entry_at-place_launcher (launcher_slot n) =
      unfold place_launcher in lookup_in-insert imported true name n cls registry.launchers

  location_at-place_launcher :
      (s : Slot)
      → location_at (place_launcher name cls location registry) s
        ≡ (if slot_beq (launcher_slot name) s then some location else location_at registry s)
  unfolding location_at place_launcher
  location_at-place_launcher (node_slot d n) = refl
  location_at-place_launcher (adapter_slot q n) = refl
  location_at-place_launcher (launcher_slot n) =
      lookup-insert name n location registry.launcher_locations

  pub place_launcher-Extends :
      Extends
        (launcher_slot name)
        (imported cls)
        location
        registry
        (place_launcher name cls location registry)
  place_launcher-Extends = record {
    entries = entry_at-place_launcher;
    places = location_at-place_launcher;
  }
