-- ===== src/Prelude/Text.antt =====
-- A Python string as the list of its code points, and the string operations that the program
-- calls: comparison, `split`, `join`, and the decimal form of a natural number.
use Prim.Native.Char.{code}
use Prim.Native.String.{String}
use Prim.Native.Nat.{ℕ, zero, suc, ◌+◌, ◌-◌, ◌*◌, ◌/◌, ◌%◌, ◌≤◌, ◌<◌}
use mathlib.Core.Path.{◌≡◌, refl, ap, sym, ◌∙◌}
use mathlib.Core.Logic.{◌↔◌, ◌≢◌, ◌⊎◌, inl, inr}
use mathlib.Core.Bool.{Bool, true, false, ◌&&◌}
use mathlib.Core.List.{List, [], ◌∷◌, ◌++◌}
use native.Mathlib.Omega.{arith}
use tz_oss_interop.Prelude.Tests.{nat_beq, nat_beq_iff, ltb, Eq, if◌then◌else◌, Bool-cases}
use tz_oss_interop.Prelude.Lists.{All, contains}

abbrev pub Text : Type 0
Text = List ℕ

abbrev pub codes : String → Text
codes String.[] = []
codes (String.◌∷◌ c s) = code c ∷ codes s

unfoldable pub text_beq : Text → Text → Bool
text_beq [] [] = true
text_beq [] (b ∷ t) = false
text_beq (a ∷ s) [] = false
text_beq (a ∷ s) (b ∷ t) = nat_beq a b && text_beq s t

pub text_beq_iff : (s t : Text) → (text_beq s t ≡ true) ↔ (s ≡ t)
unfolding text_beq
text_beq_iff [] [] = ground arith
text_beq_iff [] (b ∷ t) = ground arith
text_beq_iff (a ∷ s) [] = ground arith
text_beq_iff (a ∷ s) (b ∷ t) = ground (arith, text_beq_iff s t)

instance abbrev pub text_eq : Eq Text
text_eq = record { same = text_beq; agrees = text_beq_iff }

-- No character of the text is `c`.
abbrev pub IsFree : ℕ → Text → Type 0
IsFree c s = contains ⦃e = record { same = nat_beq; agrees = nat_beq_iff }⦄ s c ≡ false

abbrev pub push : ℕ → List Text → List Text
push c [] = (c ∷ []) ∷ []
push c (s ∷ ss) = (c ∷ s) ∷ ss

-- `text.split(sep)`, for a separator of one character.
unfoldable pub split : ℕ → Text → List Text
split sep [] = [] ∷ []
split sep (c ∷ s) = let rest = split sep s in if nat_beq c sep then [] ∷ rest else push c rest

-- `sep.join(segments)`
abbrev pub join : ℕ → List Text → Text
join sep [] = []
join sep (s ∷ []) = s
join sep (s ∷ t ∷ ts) = s ++ sep ∷ join sep (t ∷ ts)

pub split_free : (sep : ℕ) (s : Text) → IsFree sep s → split sep s ≡ s ∷ []
unfolding split
split_free sep [] h = refl
split_free sep (c ∷ s) h = ground (arith, split_free sep s)

pub split-append :
    (sep : ℕ) (s t : Text) → IsFree sep s → split sep (s ++ sep ∷ t) ≡ s ∷ split sep t
unfolding split
split-append sep [] t h = ground arith
split-append sep (c ∷ s) t h = ground (arith, split-append sep s t)

join-push :
    (sep c : ℕ) (s : Text) (ss : List Text) → join sep (push c (s ∷ ss)) ≡ c ∷ join sep (s ∷ ss)
join-push sep c s [] = refl
join-push sep c s (t ∷ ts) = refl

-- The first segment of a split, and the segments after it.
split-eq-cons : (sep : ℕ) (s : Text) → (t : Text) × (ts : List Text) × (split sep s ≡ t ∷ ts)
unfolding split
split-eq-cons sep [] = ([], [], refl)
split-eq-cons sep (c ∷ s) =
    let (t, ts, e) = split-eq-cons sep s in
    elim (Bool-cases (nat_beq c sep)) [
      | inl h ↦ ([], split sep s, rw h)
      | inr h ↦ (c ∷ t, ts, rw (h, e))
    ]

pub join-split : (sep : ℕ) (s : Text) → join sep (split sep s) ≡ s
unfolding split
join-split sep [] = refl
join-split sep (c ∷ s) =
    let (t, ts, e) = split-eq-cons sep s in
    let ih = join-split sep s in ground (arith, e, ih, join-push sep c t ts)

pub split-All-IsFree : (sep : ℕ) (s : Text) → All (IsFree sep) (split sep s)
unfolding split
split-All-IsFree sep [] = (refl, tt)
split-All-IsFree sep (c ∷ s) =
    let (t, ts, e) = split-eq-cons sep s in let ih = split-All-IsFree sep s in ground (arith, e, ih)

digit : ℕ → ℕ
digit n = b'0' + n % 10

-- The decimal digits of `n` before `rest`. The fuel `n` is enough: `n / 10` is smaller.
decimal_fuel : ℕ → ℕ → Text → Text
decimal_fuel zero n rest = digit n ∷ rest
decimal_fuel (suc f) n rest =
    let more = decimal_fuel f (n / 10) (digit n ∷ rest) in if ltb n 10 then digit n ∷ rest else more

-- `str(n)` for a natural number.
unfoldable pub decimal : ℕ → Text
unfolding decimal_fuel digit
decimal n = decimal_fuel n n []

value : ℕ → Text → ℕ
value acc [] = acc
value acc (c ∷ s) = value (acc * 10 + (c - b'0')) s

value-decimal_fuel :
    (f n : ℕ) (rest : Text) → n ≤ f → value 0 (decimal_fuel f n rest) ≡ value n rest
unfolding decimal_fuel digit value
value-decimal_fuel zero n rest h = ap (λ m. value m rest) (omega arith)
value-decimal_fuel (suc f) n rest h = elim (Bool-cases (ltb n 10)) [
  | inl small ↦ rw small (ap (λ m. value m rest) (ground arith))
  | inr big ↦ rw big (
      value-decimal_fuel f (n / 10) (digit n ∷ rest) (ground arith)
      ∙ ap (λ m. value m rest) (ground arith))
]

pub decimal_injective : (m n : ℕ) → decimal m ≡ decimal n → m ≡ n
unfolding decimal value
decimal_injective m n h =
    sym (value-decimal_fuel m m [] (omega arith))
    ∙ ap (value 0) h
    ∙ value-decimal_fuel n n [] (omega arith)

contains-decimal_fuel :
    (c f n : ℕ) (rest : Text)
    → ((m : ℕ) → digit m ≢ c)
    → IsFree c rest
    → IsFree c (decimal_fuel f n rest)
unfolding decimal_fuel
contains-decimal_fuel c zero n rest other h = ground (arith, other n)
contains-decimal_fuel c (suc f) n rest other h =
    ground (arith, other n, contains-decimal_fuel c f (n / 10) (digit n ∷ rest) other)

-- A character that is no digit stands in no decimal form.
pub decimal-IsFree : (c n : ℕ) → (c < b'0') ⊎ (b'9' < c) → IsFree c (decimal n)
unfolding decimal
decimal-IsFree c n other =
    contains-decimal_fuel c n n [] (λ m e. unfold digit in absurd (omega arith)) refl
