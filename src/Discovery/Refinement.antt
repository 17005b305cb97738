-- ===== src/Discovery/Refinement.antt =====
-- The registry implements its contract.
use tz_oss_interop.Prelude.{
  ℕ, Option, none, some, List, [], ◌∷◌, ◌≡◌, refl, sym, arith, Option-cases, inl, inr, ap, ◌∙◌,
  pair_eq, nat_eq, Eq,
}
use tz_oss_interop.Prelude.Text.{Text, text_eq}
use tz_oss_interop.Prelude.Dict.{Dict, lookup}
use tz_oss_interop.Errors.{
  Result, ok, err, ◌>>=◌, missing_port, not_a_bucket, fold_result, Result-cases,
}
use tz_oss_interop.Discovery.{
  Category, sources, steps, sinks, validators, adapters, launchers, category_eq, launcher_protocol,
  PluginClass, LazyPlugin, Registry, empty_registry, required_base, require_base,
  pipeline_node_bucket, add_pipeline_node, adapter_bucket, add_adapter_to, add_adapter,
  add_launcher, add_resolved, add_named, add, add_lazy, collision, place_node, place_adapter,
  place_launcher,
}
use tz_oss_interop.Discovery.Slots.{
  Slot, node_slot, adapter_slot, launcher_slot, Entry, deferred, imported, map_option, entry_at,
  location_at,
}
use tz_oss_interop.Discovery.Locations.{
  Extends, entry_at-empty_registry, location_at-empty_registry, place_node-Extends,
  place_adapter-Extends, place_launcher-Extends,
}
use tz_oss_interop.Discovery.Contract.{
  Registration, eager, lazily, failing, register, Declared, claim, declare_adapter,
  declare_adapter_to, declare_launcher, declare_node, declare_class, is_pipeline_node, declare,
  Implements, Refines, both_return, both_fail, register_all, declare_all,
}
use tz_oss_interop.Discovery.Claims.{
  Refines-from, claim-Refines, collision-Refines, add_pipeline_node-free, add_pipeline_node-taken,
  entry_at-bucket, pipeline_node_bucket-ok,
}

module _ (registry : Registry) (declared : Declared) (same : Implements registry declared) where
  slot-free : (s : Slot) → entry_at registry s ≡ none → declared s ≡ none
  slot-free s free = ground (arith, same.entries s)

  slot-taken :
      (s : Slot) {entry : Entry}
      → entry_at registry s ≡ some entry
      → (held : Entry × Text) × (declared s ≡ some held) × (location_at registry s ≡ some held.1)
  slot-taken s taken = elim (Option-cases (declared s)) [
    | inl free ↦ ground (arith, same.entries s)
    | inr (held, found) ↦ (held, found, ground (arith, same.places s))
  ]

  add_pipeline_node-Refines :
      (lazy : LazyPlugin) {bucket : Dict Text LazyPlugin}
      → pipeline_node_bucket lazy.category registry ≡ ok bucket
      → Refines (add_pipeline_node lazy registry) (
          claim lazy.category lazy.name
            (node_slot lazy.category lazy.name)
            (deferred lazy)
            lazy.location
            declared)
  unfolding location_at
  add_pipeline_node-Refines lazy {bucket = bucket} found =
      elim (Option-cases (lookup lazy.name bucket)) [
        | inl free ↦ Refines-from (add_pipeline_node-free lazy registry found free) (
            claim-Refines lazy.category lazy.name (node_slot lazy.category lazy.name)
              (deferred lazy) lazy.location declared registry (place_node lazy registry) same
              (place_node-Extends lazy registry found)
              (slot-free (node_slot lazy.category lazy.name)
                (entry_at-bucket lazy registry found ∙ ap (map_option deferred) free)))
        | inr (old, taken) ↦
            let (held, declared_there, placed) =
              slot-taken (node_slot lazy.category lazy.name)
                (entry_at-bucket lazy registry found ∙ ap (map_option deferred) taken) in
            Refines-from (add_pipeline_node-taken lazy registry found taken) (
              collision-Refines lazy.category lazy.name (node_slot lazy.category lazy.name)
                (deferred lazy) lazy.location declared (lazy.category, lazy.name) registry.locations
                placed declared_there)
      ]

  -- The claim of a slot whose entry `found` is.
  claim_class-Refines {κ} :
      (category : Category) (name : Text) (slot : Slot) (cls : PluginClass) (location : Text)
      (found : Option PluginClass) (after : Registry) {K : Type κ} ⦃e : Eq K⦄ (key : K)
      (locations : Dict K Text)
      → entry_at registry slot ≡ map_option imported found
      → location_at registry slot ≡ lookup key locations
      → Extends slot (imported cls) location registry after
      → Refines
          (elim found [
            | some taken ↦ collision category key name locations location
            | none ↦ ok after
          ])
          (claim category name slot (imported cls) location declared)
  claim_class-Refines category name slot cls location none after key locations entry at extends =
      claim-Refines category name slot (imported cls) location declared registry after same extends
        (slot-free slot entry)
  claim_class-Refines category name slot cls location (some old) after key locations entry at
        extends =
      let (held, declared_there, placed) = slot-taken slot entry in
      collision-Refines category name slot (imported cls) location declared key locations
        (sym at ∙ placed) declared_there

  add_launcher-Refines :
      (cls : PluginClass) (name location : Text)
      → Refines
          (add_launcher cls name location registry)
          (declare_launcher cls name location declared)
  unfolding add_launcher declare_launcher entry_at location_at
  add_launcher-Refines cls name location =
      elim (Result-cases (require_base launchers cls launcher_protocol location)) [
        | inl (e, bad) ↦ rw bad (both_fail e)
        | inr (checked, good) ↦
            rw (good, ◌>>=◌)
              (claim_class-Refines launchers name (launcher_slot name) cls location
                (lookup name registry.launchers) (place_launcher name cls location registry) name
                registry.launcher_locations refl refl
                (place_launcher-Extends name cls location registry))
      ]

  add_adapter_to-Refines :
      (port : ℕ) (cls : PluginClass) (name location : Text)
      → Refines
          (add_adapter_to port cls name location registry)
          (declare_adapter_to port cls name location declared)
  unfolding add_adapter_to declare_adapter_to entry_at location_at
  add_adapter_to-Refines port cls name location =
      elim (Result-cases (require_base adapters cls port location)) [
        | inl (e, bad) ↦ rw bad (both_fail e)
        | inr (checked, good) ↦
            rw (good, ◌>>=◌)
              (claim_class-Refines adapters name (adapter_slot port name) cls location
                (lookup name (adapter_bucket port registry))
                (place_adapter port name cls location registry) (port, name)
                registry.adapter_locations refl refl
                (place_adapter-Extends port name cls location registry))
      ]

  add_adapter-Refines :
      (cls : PluginClass) (name location : Text)
      → Refines
          (add_adapter cls name location registry)
          (declare_adapter cls name location declared)
  unfolding add_adapter declare_adapter
  add_adapter-Refines cls name location =
      elim cls.port
        as (λ p.
          Refines
            (elim p [
              | none ↦ err (missing_port cls.qualname location)
              | some port ↦ add_adapter_to port cls name location registry
            ])
            (elim p [
              | none ↦ err (missing_port cls.qualname location)
              | some port ↦ declare_adapter_to port cls name location declared
            ])) [
              | none ↦ both_fail (missing_port cls.qualname location)
              | some port ↦ add_adapter_to-Refines port cls name location
            ]

  add_resolved-Refines :
      (category : Category) (cls : PluginClass) (name location : Text) {expected : ℕ}
      → required_base category ≡ ok expected
      → Refines
          (add_resolved category cls name location registry)
          (declare_node category cls name location declared)
  unfolding add_resolved declare_node
  add_resolved-Refines category cls name location {expected = expected} needed =
      elim (Result-cases (require_base category cls expected location)) [
        | inl (e, bad) ↦ rw (needed, ◌>>=◌, bad) (both_fail e)
        | inr (checked, good) ↦
            let (bucket, found) = pipeline_node_bucket-ok category registry needed in
            rw (needed, ◌>>=◌, good) (add_pipeline_node-Refines _ found)
      ]

  add_named-Refines :
      (category : Category) (cls : PluginClass) (name location : Text)
      → Refines
          (add_named category cls name location registry)
          (declare_class category cls name location declared)
  unfolding add_named declare_class required_base
  add_named-Refines adapters cls name location = add_adapter-Refines cls name location
  add_named-Refines launchers cls name location = add_launcher-Refines cls name location
  add_named-Refines sources cls name location = add_resolved-Refines sources cls name location refl
  add_named-Refines steps cls name location = add_resolved-Refines steps cls name location refl
  add_named-Refines sinks cls name location = add_resolved-Refines sinks cls name location refl
  add_named-Refines validators cls name location =
      add_resolved-Refines validators cls name location refl

  add-Refines :
      (category : Category) (cls : PluginClass) (location : Text)
      → Refines
          (add category cls location registry)
          (declare declared (eager category cls location))
  unfolding add declare
  add-Refines category cls location =
      elim cls.name
        as (λ n.
          Refines
            (elim n [
              | none ↦ ok registry
              | some [] ↦ ok registry
              | some (c ∷ name) ↦ add_named category cls (c ∷ name) location registry
            ])
            (elim n [
              | none ↦ ok declared
              | some [] ↦ ok declared
              | some (c ∷ name) ↦ declare_class category cls (c ∷ name) location declared
            ])) [
              | none ↦ both_return same
              | some [] ↦ both_return same
              | some (c ∷ name) ↦ add_named-Refines category cls (c ∷ name) location
            ]

  add_lazy-Refines :
      (category : Category) (name location : Text) (load : Result PluginClass)
      → Refines
          (add_lazy category name location load registry)
          (declare declared (lazily category name location load))
  unfolding add_lazy declare is_pipeline_node pipeline_node_bucket
  add_lazy-Refines adapters name location load = unfold add_pipeline_node in both_fail not_a_bucket
  add_lazy-Refines launchers name location load = unfold add_pipeline_node in both_fail not_a_bucket
  add_lazy-Refines sources name location load = add_pipeline_node-Refines _ refl
  add_lazy-Refines steps name location load = add_pipeline_node-Refines _ refl
  add_lazy-Refines sinks name location load = add_pipeline_node-Refines _ refl
  add_lazy-Refines validators name location load = add_pipeline_node-Refines _ refl

  register-Refines :
      (registration : Registration)
      → Refines (register registry registration) (declare declared registration)
  unfolding register
  register-Refines (eager category cls location) = add-Refines category cls location
  register-Refines (lazily category name location load) =
      add_lazy-Refines category name location load
  register-Refines (failing raised_error) = unfold declare in both_fail raised_error

-- A registry that implements a declared state still does after registrations, and they fail with
-- the same error or on neither side.
register_each-Refines :
    (registrations : List Registration) (registry : Registry) (declared : Declared)
    → Implements registry declared
    → Refines
        (fold_result register registry registrations)
        (fold_result declare declared registrations)
register_each-Refines [] registry declared same = both_return same
register_each-Refines (registration ∷ registrations) registry declared same =
    elim (register-Refines registry declared same registration)
      as (λ r d _.
        Refines (r >>= λ next. fold_result register next registrations)
          (d >>= λ next. fold_result declare next registrations)) [
            | both_return {registry = next} {declared = now} later ↦
                register_each-Refines registrations next now later
            | both_fail e ↦ both_fail e
          ]

empty_registry-Implements : Implements empty_registry (λ s. none)
empty_registry-Implements = record {
  entries = λ s. entry_at-empty_registry s;
  places = λ s. location_at-empty_registry s;
}

pub register_all-Refines :
    (registrations : List Registration)
    → Refines (register_all registrations) (declare_all registrations)
unfolding register_all declare_all
register_all-Refines registrations =
    register_each-Refines registrations empty_registry (λ s. none) empty_registry-Implements
