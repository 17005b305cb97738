-- ===== src/Discovery/Claims.antt =====
-- A claim of a slot, and the steps of the registrations that claim one.
use tz_oss_interop.Prelude.{
  ℕ, none, some, if◌then◌else◌, ◌≡◌, refl, sym, arith, subst, ap, pair_eq, nat_eq, Eq,
}
use tz_oss_interop.Prelude.Text.{Text, text_eq}
use tz_oss_interop.Prelude.Dict.{Dict, lookup}
use tz_oss_interop.Errors.{Result, Error, ok, err, ◌>>=◌, plugin_collision}
use tz_oss_interop.Discovery.{
  Category, sources, steps, sinks, validators, adapters, launchers, category_eq, category_value,
  LazyPlugin, Registry, required_base, pipeline_node_bucket, add_pipeline_node, collision,
  place_node,
}
use tz_oss_interop.Discovery.Slots.{
  Slot, node_slot, slot_beq, Entry, deferred, bucket_at, map_option, entry_at,
}
use tz_oss_interop.Discovery.Locations.{Extends}
use tz_oss_interop.Discovery.Contract.{Declared, claim, Implements, Refines, both_return, both_fail}

pub Refines-from : {r s : Result Registry} {d : Result Declared} → r ≡ s → Refines s d → Refines r d
Refines-from {d = d} same refines = subst (λ x. Refines x d) (sym same) refines

pub Refines-to : {r : Result Registry} {d e : Result Declared} → d ≡ e → Refines r e → Refines r d
Refines-to {r = r} same refines = subst (λ x. Refines r x) (sym same) refines

pub Refines-err :
    {r : Result Registry} {d : Result Declared} {e : Error} → r ≡ err e → d ≡ err e → Refines r d
Refines-err {e = e} failed refused = Refines-from failed (Refines-to refused (both_fail e))

module _ (category : Category) (name : Text) (slot : Slot) (entry : Entry) (location : Text)
    (declared : Declared) where
  pub claim-free :
      declared slot ≡ none
      → claim category name slot entry location declared
        ≡ ok (λ s. if slot_beq slot s then some (entry, location) else declared s)
  unfolding claim
  claim-free free = rw (free, claim) refl

  pub claim-taken :
      {held : Entry × Text}
      → declared slot ≡ some held
      → claim category name slot entry location declared
        ≡ err (plugin_collision (category_value category) name held.1 location)
  unfolding claim
  claim-taken taken = rw (taken, claim) refl

  pub collision-placed {κ} :
      {K : Type κ} ⦃e : Eq K⦄ (key : K) (locations : Dict K Text) {prior : Text}
      → lookup key locations ≡ some prior
      → collision category key name locations location
        ≡ err (plugin_collision (category_value category) name prior location)
  unfolding collision
  collision-placed key locations placed = rw (placed, collision) refl

  pub claim-Refines :
      (before after : Registry)
      → Implements before declared
      → Extends slot entry location before after
      → declared slot ≡ none
      → Refines (ok after) (claim category name slot entry location declared)
  claim-Refines before after same extends free = Refines-to (claim-free free) (
      both_return (record {
        entries = λ s. ground (arith, extends.entries s, same.entries s);
        places = λ s. ground (arith, extends.places s, same.places s);
      }))

  pub collision-Refines {κ} :
      {K : Type κ} ⦃e : Eq K⦄ (key : K) (locations : Dict K Text) {held : Entry × Text}
      → lookup key locations ≡ some held.1
      → declared slot ≡ some held
      → Refines
          (collision category key name locations location)
          (claim category name slot entry location declared)
  collision-Refines key locations placed taken =
      Refines-err (collision-placed key locations placed) (claim-taken taken)

pub add_pipeline_node-free :
    (lazy : LazyPlugin) (registry : Registry) {bucket : Dict Text LazyPlugin}
    → pipeline_node_bucket lazy.category registry ≡ ok bucket
    → lookup lazy.name bucket ≡ none
    → add_pipeline_node lazy registry ≡ ok (place_node lazy registry)
unfolding add_pipeline_node
add_pipeline_node-free lazy registry found free = rw (found, ◌>>=◌, free) refl

pub add_pipeline_node-taken :
    (lazy : LazyPlugin) (registry : Registry) {bucket : Dict Text LazyPlugin} {old : LazyPlugin}
    → pipeline_node_bucket lazy.category registry ≡ ok bucket
    → lookup lazy.name bucket ≡ some old
    → add_pipeline_node lazy registry
      ≡ collision lazy.category
          (lazy.category, lazy.name)
          lazy.name
          registry.locations
          lazy.location
unfolding add_pipeline_node
add_pipeline_node-taken lazy registry found taken = rw (found, ◌>>=◌, taken) refl

pub pipeline_node_bucket_lem :
    (category : Category) (registry : Registry) {bucket : Dict Text LazyPlugin}
    → pipeline_node_bucket category registry ≡ ok bucket
    → bucket_at category registry ≡ bucket
unfolding pipeline_node_bucket bucket_at
pipeline_node_bucket_lem category registry found = ground arith

pub entry_at-bucket :
    (lazy : LazyPlugin) (registry : Registry) {bucket : Dict Text LazyPlugin}
    → pipeline_node_bucket lazy.category registry ≡ ok bucket
    → entry_at registry (node_slot lazy.category lazy.name)
      ≡ map_option deferred (lookup lazy.name bucket)
unfolding entry_at
entry_at-bucket lazy registry found =
    ap (λ b. map_option deferred (lookup lazy.name b))
      (pipeline_node_bucket_lem lazy.category registry found)

pub pipeline_node_bucket-ok :
    (category : Category) (registry : Registry) {expected : ℕ}
    → required_base category ≡ ok expected
    → (bucket : Dict Text LazyPlugin) × (pipeline_node_bucket category registry ≡ ok bucket)
unfolding required_base pipeline_node_bucket
pipeline_node_bucket-ok sources registry needed = (registry.sources, refl)
pipeline_node_bucket-ok steps registry needed = (registry.steps, refl)
pipeline_node_bucket-ok sinks registry needed = (registry.sinks, refl)
pipeline_node_bucket-ok validators registry needed = (registry.validators, refl)
pipeline_node_bucket-ok adapters registry needed = absurd (cc needed)
pipeline_node_bucket-ok launchers registry needed = absurd (cc needed)
