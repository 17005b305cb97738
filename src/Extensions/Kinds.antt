-- ===== src/Extensions/Kinds.antt =====
-- `ExtensionKind` of interop/core/extensions.py.
use tz_oss_interop.Prelude.{
  ℕ, zero, suc, ◌≡◌, ◌↔◌, refl, sym, ◌∙◌, ap, Bool, true, List, [], ◌∷◌, nat_beq, nat_beq_iff, Eq,
}
use tz_oss_interop.Prelude.Text.{Text, codes}

pub data ExtensionKind : Type 0 where
  bus generator load line controllable_line storage reserve constraint network : ExtensionKind

-- The kinds in the order of `EXTENSION_MODELS`.
abbrev pub kinds : List ExtensionKind
kinds =
    bus ∷ generator ∷ load ∷ line ∷ controllable_line ∷ storage ∷ reserve ∷ constraint ∷ network
    ∷ []

-- `str(kind)`
abbrev pub kind_name : ExtensionKind → Text
kind_name bus = codes "bus"
kind_name generator = codes "generator"
kind_name load = codes "load"
kind_name line = codes "line"
kind_name controllable_line = codes "controllable_line"
kind_name storage = codes "storage"
kind_name reserve = codes "reserve"
kind_name constraint = codes "constraint"
kind_name network = codes "network"

abbrev pub position : ExtensionKind → ℕ
position bus = 0
position generator = 1
position load = 2
position line = 3
position controllable_line = 4
position storage = 5
position reserve = 6
position constraint = 7
position network = 8

abbrev at_position : ℕ → ExtensionKind
at_position zero = bus
at_position (suc zero) = generator
at_position (suc (suc zero)) = load
at_position (suc (suc (suc zero))) = line
at_position (suc (suc (suc (suc zero)))) = controllable_line
at_position (suc (suc (suc (suc (suc zero))))) = storage
at_position (suc (suc (suc (suc (suc (suc zero)))))) = reserve
at_position (suc (suc (suc (suc (suc (suc (suc zero))))))) = constraint
at_position (suc (suc (suc (suc (suc (suc (suc (suc n)))))))) = network

at_position-position : (k : ExtensionKind) → at_position (position k) ≡ k
at_position-position bus = refl
at_position-position generator = refl
at_position-position load = refl
at_position-position line = refl
at_position-position controllable_line = refl
at_position-position storage = refl
at_position-position reserve = refl
at_position-position constraint = refl
at_position-position network = refl

abbrev pub kind_beq : ExtensionKind → ExtensionKind → Bool
kind_beq a b = nat_beq (position a) (position b)

pub kind_beq_iff : (a b : ExtensionKind) → (kind_beq a b ≡ true) ↔ (a ≡ b)
kind_beq_iff a b = (
  (λ h.
      sym (at_position-position a)
      ∙ ap at_position ((nat_beq_iff (position a) (position b)).0 h)
      ∙ at_position-position b),
  λ e. (nat_beq_iff (position a) (position b)).1 (ap position e),
)

instance abbrev pub kind_eq : Eq ExtensionKind
kind_eq = record { same = kind_beq; agrees = kind_beq_iff }
