-- ===== src/Prelude/Tests.antt =====
-- Boolean tests, the conditional, and equality as an interface.
use Prim.Native.Nat.{ℕ, compare, Ordering}
use mathlib.Core.Path.{◌≡◌, refl}
use mathlib.Core.Logic.{◌≢◌, ◌↔◌, ◌⊎◌, inl, inr}
use mathlib.Core.Bool.{Bool, true, false, ◌&&◌}
use mathlib.Core.Option.{Option, none, some}
use native.Mathlib.Omega.{arith}

abbrev pub ltb : ℕ → ℕ → Bool
ltb a b = elim (compare a b) [ Ordering.lt ↦ true | _ ↦ false ]

abbrev pub leb : ℕ → ℕ → Bool
leb a b = elim (compare a b) [ Ordering.gt ↦ false | _ ↦ true ]

abbrev pub nat_beq : ℕ → ℕ → Bool
nat_beq a b = elim (compare a b) [ Ordering.eq ↦ true | _ ↦ false ]

pub nat_beq_iff : (a b : ℕ) → (nat_beq a b ≡ true) ↔ (a ≡ b)
nat_beq_iff a b = ground arith

infix 1 if◌then◌else◌
abbrev pub if◌then◌else◌ {ℓ} : {A : Type ℓ} → Bool → A → A → A
if true then x else y = x
if false then x else y = y

-- The hash and equality protocol of the keys of a dict and of the members of a set.
pub record Eq {κ} (Key : Type κ) : Type κ where
  pub same : Key → Key → Bool
  pub agrees : (k j : Key) → (same k j ≡ true) ↔ (k ≡ j)

module _ {κ} {Key : Type κ} where
  infix 50 ◌==◌
  abbrev pub ◌==◌ : ⦃keyed : Eq Key⦄ → Key → Key → Bool
  ◌==◌ ⦃keyed⦄ = keyed.same

instance abbrev pub nat_eq : Eq ℕ
nat_eq = record { same = nat_beq; agrees = nat_beq_iff }

module _ {ℓ} {A : Type ℓ} ⦃e : Eq A⦄ where
  pub ==_refl : (a : A) → (a == a) ≡ true
  ==_refl a = (e.agrees a a).1 refl

  pub eq_of_== : (a b : A) → (a == b) ≡ true → a ≡ b
  eq_of_== a b h = (e.agrees a b).0 h

  pub ==_comm : (a b : A) → (a == b) ≡ (b == a)
  ==_comm a b = ground (arith, e.agrees a b, e.agrees b a)

  pub ==_false : (a b : A) → a ≢ b → (a == b) ≡ false
  ==_false a b h = ground (arith, e.agrees a b)

  pub ne_of_== : (a b : A) → (a == b) ≡ false → a ≢ b
  ne_of_== a b h = ground (arith, e.agrees a b)

-- A key of two parts.
module _ {κ μ} {First : Type κ} {Second : Type μ} ⦃e : Eq First⦄ ⦃f : Eq Second⦄ where
  abbrev pub pair_beq : First × Second → First × Second → Bool
  pair_beq (a, b) (c, d) = a == c && b == d

  pub pair_beq_iff : (k j : First × Second) → (pair_beq k j ≡ true) ↔ (k ≡ j)
  pair_beq_iff (a, b) (c, d) = ground (arith, e.agrees a c, f.agrees b d)

  instance abbrev pub pair_eq : Eq (First × Second)
  pair_eq = record { same = pair_beq; agrees = pair_beq_iff }

-- To split on a computed value and keep the equation.
pub Bool-cases : (b : Bool) → (b ≡ true) ⊎ (b ≡ false)
Bool-cases true = inl refl
Bool-cases false = inr refl

pub Option-cases {ℓ} : {A : Type ℓ} (o : Option A) → (o ≡ none) ⊎ ((a : A) × (o ≡ some a))
Option-cases none = inl refl
Option-cases (some a) = inr (a, refl)
