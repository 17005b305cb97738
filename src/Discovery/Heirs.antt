-- ===== src/Discovery/Heirs.antt =====
-- The check of a class, and what it makes true of a claim.
use tz_oss_interop.Prelude.{
  ℕ, Bool, true, false, Option, none, some, if◌then◌else◌, contains, ◌≡◌, refl, sym, arith,
  Option-cases, Bool-cases, inl, inr, subst, ◌∙◌, nat_eq,
}
use tz_oss_interop.Prelude.Text.{Text, text_eq}
use tz_oss_interop.Errors.{Result, ok, err, ◌>>=◌, Result-cases, ok_injective}
use tz_oss_interop.Discovery.{
  Category, category_eq, launcher_protocol, PluginClass, LazyPlugin, lazy_plugin, resolved_plugin,
  required_base, require_base, resolve,
}
use tz_oss_interop.Discovery.Slots.{
  Slot, node_slot, adapter_slot, launcher_slot, slot_beq, Entry, deferred, imported,
}
use tz_oss_interop.Discovery.Contract.{Declared, claim, declare_adapter, declare_adapter_to}
use tz_oss_interop.Discovery.Claims.{claim-free, claim-taken}

-- What resolving a plugin gives inherits from the base of a category; so does nothing where the
-- plugin does not resolve.
unfoldable pub resolves_to_heir : Category → LazyPlugin → Bool
resolves_to_heir category lazy = elim (resolve lazy) [
  | err e ↦ true
  | ok (cls, after) ↦ elim (required_base category) [
    | err e ↦ false
    | ok expected ↦ contains cls.mro expected
  ]
]

-- What is at a slot is of the slot's sort, and inherits from the slot's protocol.
unfoldable pub inherits : Slot → Entry → Bool
inherits (node_slot category name) (deferred lazy) = resolves_to_heir category lazy
inherits (adapter_slot port name) (imported cls) = contains cls.mro port
inherits (launcher_slot name) (imported cls) = contains cls.mro launcher_protocol
inherits _ _ = false

unfoldable pub inherits_there : Slot → Option (Entry × Text) → Bool
inherits_there slot none = true
inherits_there slot (some held) = inherits slot held.0

unfoldable pub InheritsAll : Declared → Type 0
InheritsAll declared = (s : Slot) → inherits_there s (declared s) ≡ true

pub slot_beq-eq : (s t : Slot) → slot_beq s t ≡ true → s ≡ t
slot_beq-eq (node_slot c m) (node_slot d n) h =
    ground (arith, category_eq.agrees c d, text_eq.agrees m n)
slot_beq-eq (adapter_slot p m) (adapter_slot q n) h =
    ground (arith, nat_eq.agrees p q, text_eq.agrees m n)
slot_beq-eq (launcher_slot m) (launcher_slot n) h = ground (arith, text_eq.agrees m n)
slot_beq-eq (node_slot c m) (adapter_slot q n) h = absurd (cc h)
slot_beq-eq (node_slot c m) (launcher_slot n) h = absurd (cc h)
slot_beq-eq (adapter_slot p m) (node_slot c n) h = absurd (cc h)
slot_beq-eq (adapter_slot p m) (launcher_slot n) h = absurd (cc h)
slot_beq-eq (launcher_slot m) (node_slot c n) h = absurd (cc h)
slot_beq-eq (launcher_slot m) (adapter_slot q n) h = absurd (cc h)

pub require_base_lem :
    (category : Category) (cls : PluginClass) (expected : ℕ) (location : Text)
    {checked : PluginClass}
    → require_base category cls expected location ≡ ok checked
    → (checked ≡ cls) × (contains cls.mro expected ≡ true)
unfolding require_base
require_base_lem category cls expected location returned = ground arith

pub inherits_there-if :
    (slot s : Slot) (entry : Entry) (location : Text) (held : Option (Entry × Text))
    → inherits slot entry ≡ true
    → inherits_there s held ≡ true
    → inherits_there s (if slot_beq slot s then some (entry, location) else held) ≡ true
inherits_there-if slot s entry location held heir here = elim (Bool-cases (slot_beq slot s)) [
  | inl same ↦
      rw same (
        unfold inherits_there in
        subst (λ t. inherits t entry ≡ true) (slot_beq-eq slot s same) heir)
  | inr other ↦ rw other here
]

pub claim-InheritsAll :
    (category : Category) (name : Text) (slot : Slot) (entry : Entry) (location : Text)
    (declared : Declared) {later : Declared}
    → inherits slot entry ≡ true
    → InheritsAll declared
    → claim category name slot entry location declared ≡ ok later
    → InheritsAll later
unfolding InheritsAll
claim-InheritsAll category name slot entry location declared {later = later} heir heirs claimed =
    elim (Option-cases (declared slot)) [
      | inl free ↦
          subst InheritsAll
            (ok_injective
              (sym (claim-free category name slot entry location declared free) ∙ claimed))
            (λ s. inherits_there-if slot s entry location (declared s) heir (heirs s))
      | inr (held, taken) ↦
          absurd (cc (sym (claim-taken category name slot entry location declared taken) ∙ claimed))
    ]

pub resolved_heir :
    (category : Category) (name location : Text) (cls : PluginClass) {expected : ℕ}
    → required_base category ≡ ok expected
    → contains cls.mro expected ≡ true
    → resolves_to_heir category (resolved_plugin category name location cls) ≡ true
unfolding resolve resolves_to_heir
resolved_heir category name location cls needed heir = rw (resolves_to_heir, needed) heir

-- A plugin that is not resolved yet resolves to a class that the check lets through.
pub unresolved_heir :
    (category : Category) (name location : Text) (load : Result PluginClass)
    → resolves_to_heir category (lazy_plugin category name location load) ≡ true
unfolding resolve resolves_to_heir
unresolved_heir category name location (err e) = refl
unresolved_heir category name location (ok cls) = elim (Result-cases (required_base category)) [
  | inl (e, none_needed) ↦ rw (resolves_to_heir, none_needed, ◌>>=◌) refl
  | inr (expected, needed) ↦ elim (Result-cases (require_base category cls expected location)) [
    | inl (e, bad) ↦ rw (resolves_to_heir, needed, ◌>>=◌, bad) refl
    | inr (checked, good) ↦ ground (arith, require_base_lem category cls expected location good)
  ]
]

pub declare_adapter-stated :
    (cls : PluginClass) (name location : Text) (declared : Declared) {port : ℕ}
    → cls.port ≡ some port
    → declare_adapter cls name location declared
      ≡ declare_adapter_to port cls name location declared
unfolding declare_adapter
declare_adapter-stated cls name location declared stated = ground arith
