-- ===== src/Discovery/Inheritance.antt =====
-- What a registration checks of a class stays true of the registry: each class in it inherits from
-- the protocol that it is registered for.
use tz_oss_interop.Prelude.{
  ℕ, true, Option, none, some, List, [], ◌∷◌, ◌≡◌, refl, sym, arith, Option-cases, Bool-cases, inl,
  inr, subst, ◌∙◌, nat_eq,
}
use tz_oss_interop.Prelude.Text.{Text, text_eq}
use tz_oss_interop.Errors.{Result, ok, >>=-eq-ok, fold_result, ok_injective}
use tz_oss_interop.Discovery.{
  Category, sources, steps, sinks, validators, adapters, launchers, category_eq, launcher_protocol,
  PluginClass, lazy_plugin, resolved_plugin, Registry, required_base, require_base,
}
use tz_oss_interop.Discovery.Slots.{
  Slot, node_slot, adapter_slot, launcher_slot, Entry, deferred, imported, entry_at, map_option,
}
use tz_oss_interop.Discovery.Contract.{
  Registration, eager, lazily, failing, Declared, declare_adapter, declare_adapter_to,
  declare_launcher, declare_node, declare_class, is_pipeline_node, declare, Implements, Refines,
  both_return, both_fail, register_all, declare_all,
}
use tz_oss_interop.Discovery.Refinement.{register_all-Refines}
use tz_oss_interop.Discovery.Heirs.{
  inherits, inherits_there, InheritsAll, require_base_lem, claim-InheritsAll, resolved_heir,
  unresolved_heir, declare_adapter-stated,
}

module _ (declared : Declared) (heirs : InheritsAll declared) where
  declare_node-InheritsAll :
      (category : Category) (cls : PluginClass) (name location : Text) {later : Declared}
      → declare_node category cls name location declared ≡ ok later
      → InheritsAll later
  unfolding declare_node
  declare_node-InheritsAll category cls name location returned =
      let (expected, needed, after) = >>=-eq-ok (required_base category) _ returned in
      let (checked, passed, claimed) =
        >>=-eq-ok (require_base category cls expected location) _ after in
      let (_, heir) = require_base_lem category cls expected location passed in
      claim-InheritsAll category name (node_slot category name)
        (deferred (resolved_plugin category name location cls)) location declared
        (unfold inherits in resolved_heir category name location cls needed heir) heirs claimed

  declare_launcher-InheritsAll :
      (cls : PluginClass) (name location : Text) {later : Declared}
      → declare_launcher cls name location declared ≡ ok later
      → InheritsAll later
  unfolding declare_launcher
  declare_launcher-InheritsAll cls name location returned =
      let (checked, passed, claimed) =
        >>=-eq-ok (require_base launchers cls launcher_protocol location) _ returned in
      let (_, heir) = require_base_lem launchers cls launcher_protocol location passed in
      claim-InheritsAll launchers name (launcher_slot name) (imported cls) location declared
        (unfold inherits in heir) heirs claimed

  declare_adapter_to-InheritsAll :
      (port : ℕ) (cls : PluginClass) (name location : Text) {later : Declared}
      → declare_adapter_to port cls name location declared ≡ ok later
      → InheritsAll later
  unfolding declare_adapter_to
  declare_adapter_to-InheritsAll port cls name location returned =
      let (checked, passed, claimed) =
        >>=-eq-ok (require_base adapters cls port location) _ returned in
      let (_, heir) = require_base_lem adapters cls port location passed in
      claim-InheritsAll adapters name (adapter_slot port name) (imported cls) location declared
        (unfold inherits in heir) heirs claimed

  declare_adapter-InheritsAll :
      (cls : PluginClass) (name location : Text) {later : Declared}
      → declare_adapter cls name location declared ≡ ok later
      → InheritsAll later
  declare_adapter-InheritsAll cls name location returned = elim (Option-cases cls.port) [
    | inl missing ↦ unfold declare_adapter in ground arith
    | inr (port, stated) ↦
        declare_adapter_to-InheritsAll port cls name location
          (sym (declare_adapter-stated cls name location declared stated) ∙ returned)
  ]

  declare_class-InheritsAll :
      (category : Category) (cls : PluginClass) (name location : Text) {later : Declared}
      → declare_class category cls name location declared ≡ ok later
      → InheritsAll later
  unfolding declare_class
  declare_class-InheritsAll adapters cls name location =
      declare_adapter-InheritsAll cls name location
  declare_class-InheritsAll launchers cls name location =
      declare_launcher-InheritsAll cls name location
  declare_class-InheritsAll sources cls name location =
      declare_node-InheritsAll sources cls name location
  declare_class-InheritsAll steps cls name location =
      declare_node-InheritsAll steps cls name location
  declare_class-InheritsAll sinks cls name location =
      declare_node-InheritsAll sinks cls name location
  declare_class-InheritsAll validators cls name location =
      declare_node-InheritsAll validators cls name location

  declare-InheritsAll :
      (registration : Registration) {later : Declared}
      → declare declared registration ≡ ok later
      → InheritsAll later
  unfolding declare
  declare-InheritsAll (failing e) returned = absurd (cc returned)
  declare-InheritsAll (lazily category name location load) returned =
      elim (Bool-cases (is_pipeline_node category)) [
        | inl node ↦
            claim-InheritsAll category name (node_slot category name)
              (deferred (lazy_plugin category name location load)) location declared
              (unfold inherits in unresolved_heir category name location load) heirs (ground arith)
        | inr other ↦ ground arith
      ]
  declare-InheritsAll (eager category cls location) {later = later} returned =
      (elim cls.name
          as (λ n.
            (elim n [
              | none ↦ ok declared
              | some [] ↦ ok declared
              | some (c ∷ name) ↦ declare_class category cls (c ∷ name) location declared
            ])
              ≡ ok later
            → InheritsAll later) [
              | none ↦ λ same. subst InheritsAll (ok_injective same) heirs
              | some [] ↦ λ same. subst InheritsAll (ok_injective same) heirs
              | some (c ∷ name) ↦ λ later_same.
                  declare_class-InheritsAll category cls (c ∷ name) location later_same
            ])
        returned

declare_each-InheritsAll :
    (registrations : List Registration) (declared : Declared) {later : Declared}
    → InheritsAll declared
    → fold_result declare declared registrations ≡ ok later
    → InheritsAll later
declare_each-InheritsAll [] declared heirs returned =
    subst InheritsAll (ok_injective returned) heirs
declare_each-InheritsAll (registration ∷ registrations) declared heirs returned =
    let (next, first, rest) = >>=-eq-ok (declare declared registration) _ returned in
    declare_each-InheritsAll registrations next
      (declare-InheritsAll declared heirs registration first) rest

Refines-returned :
    {r : Result Registry} {d : Result Declared} {registry : Registry}
    → Refines r d
    → r ≡ ok registry
    → (declared : Declared) × (d ≡ ok declared) × Implements registry declared
Refines-returned (both_return {declared = declared} same) returned =
    (declared, refl, subst (λ r. Implements r declared) (ok_injective returned) same)
Refines-returned (both_fail e) returned = absurd (cc returned)

nothing-InheritsAll : InheritsAll (λ s. none)
unfolding InheritsAll inherits_there
nothing-InheritsAll s = refl

heirs_at :
    (slot : Slot) (held : Option (Entry × Text)) {entry : Entry}
    → inherits_there slot held ≡ true
    → map_option (λ d. d.0) held ≡ some entry
    → inherits slot entry ≡ true
unfolding inherits_there
heirs_at slot none heir here = absurd (cc here)
heirs_at slot (some (entry, location)) heir here =
    subst (λ e. inherits slot e ≡ true) (cc here) heir

pub register_all-inherits :
    (registrations : List Registration) (slot : Slot) {registry : Registry} {entry : Entry}
    → register_all registrations ≡ ok registry
    → entry_at registry slot ≡ some entry
    → inherits slot entry ≡ true
unfolding declare_all InheritsAll
register_all-inherits registrations slot {entry = entry} returned here =
    let (declared, made, same) = Refines-returned (register_all-Refines registrations) returned in
    let heirs = declare_each-InheritsAll registrations (λ s. none) nothing-InheritsAll made in
    let there : map_option (λ d. d.0) (declared slot) ≡ some entry =
      sym (same.entries slot) ∙ here in
    heirs_at slot (declared slot) (heirs slot) there
