-- ===== src/Prelude/Int.antt =====
-- Integers over the native numbers. No code of the repository is modelled here.
use Prim.Native.Nat.{ℕ, suc, ◌+◌}
use mathlib.Core.Path.{◌≡◌}
use mathlib.Core.Logic.{◌↔◌}
use mathlib.Core.Bool.{Bool, true, false}
use native.Mathlib.Omega.{arith}
use tz_oss_interop.Prelude.Tests.{nat_beq, nat_beq_iff, ltb, leb, Eq}

-- `negsuc n` is -(n + 1)
pub data ℤ : Type 0 where
  pos : ℕ → ℤ
  negsuc : ℕ → ℤ

abbrev pos_part : ℤ → ℕ
pos_part (pos n) = n
pos_part (negsuc n) = 0

abbrev neg_part : ℤ → ℕ
neg_part (pos n) = 0
neg_part (negsuc n) = suc n

abbrev pub ltb_ℤ : ℤ → ℤ → Bool
ltb_ℤ a b = ltb (pos_part a + neg_part b) (pos_part b + neg_part a)

abbrev pub leb_ℤ : ℤ → ℤ → Bool
leb_ℤ a b = leb (pos_part a + neg_part b) (pos_part b + neg_part a)

abbrev int_beq : ℤ → ℤ → Bool
int_beq (pos m) (pos n) = nat_beq m n
int_beq (pos m) (negsuc n) = false
int_beq (negsuc m) (pos n) = false
int_beq (negsuc m) (negsuc n) = nat_beq m n

pub int_beq_iff : (k j : ℤ) → (int_beq k j ≡ true) ↔ (k ≡ j)
int_beq_iff (pos m) (pos n) = ground (arith, nat_beq_iff m n)
int_beq_iff (pos m) (negsuc n) = ground arith
int_beq_iff (negsuc m) (pos n) = ground arith
int_beq_iff (negsuc m) (negsuc n) = ground (arith, nat_beq_iff m n)

instance abbrev pub int_eq : Eq ℤ
int_eq = record { same = int_beq; agrees = int_beq_iff }
