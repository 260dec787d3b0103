-- ===== src/Base/Int.antt =====
-- Signed integers over the native numbers: Go's int, int32, int64, time.Time and time.Duration.
use headway.Base.Tests.{ltb, leb, if◌then◌else◌}
use Prim.Native.Nat.{ℕ, suc, ◌+◌, ◌-◌, ◌*◌, ◌/◌, ◌%◌, ◌^◌, ◌≤◌, ◌<◌}
use mathlib.Core.Path.{◌≡◌}
use mathlib.Core.Logic.{◌↔◌, ◌⊎◌, inl, inr}
use mathlib.Core.Bool.{Bool, true, false, ◌&&◌}
use native.Mathlib.Omega.{arith}

-- `negsuc n` is -(n + 1).
pub data ℤ : Type 0 where
  pos : ℕ → ℤ
  negsuc : ℕ → ℤ

abbrev pub pos_part : ℤ → ℕ
pos_part (pos n) = n
pos_part (negsuc n) = 0

abbrev pub neg_part : ℤ → ℕ
neg_part (pos n) = 0
neg_part (negsuc n) = suc n

-- a - b, as an integer.
abbrev pub sub_ℕ : ℕ → ℕ → ℤ
sub_ℕ a b = if leb b a then pos (a - b) else negsuc (b - a - 1)

infixl 65 ◌+ℤ◌ ◌-ℤ◌
infix 50 ◌≤ℤ◌ ◌<ℤ◌
unfoldable pub ◌+ℤ◌ : ℤ → ℤ → ℤ
a +ℤ b = sub_ℕ (pos_part a + pos_part b) (neg_part a + neg_part b)

unfoldable pub ◌-ℤ◌ : ℤ → ℤ → ℤ
a -ℤ b = sub_ℕ (pos_part a + neg_part b) (neg_part a + pos_part b)

-- z * n for a natural n.
unfoldable pub scale : ℤ → ℕ → ℤ
scale (pos a) n = pos (a * n)
scale (negsuc a) n = sub_ℕ 0 (suc a * n)

-- Division rounding down, and its remainder.
unfoldable pub div_ℤ : ℤ → ℕ → ℤ
div_ℤ (pos a) n = pos (a / n)
div_ℤ (negsuc a) n = negsuc (a / n)

unfoldable pub mod_ℤ : ℤ → ℕ → ℕ
mod_ℤ (pos a) n = a % n
mod_ℤ (negsuc a) n = n - 1 - a % n

abbrev pub ◌≤ℤ◌ : ℤ → ℤ → Type 0
a ≤ℤ b = pos_part a + neg_part b ≤ pos_part b + neg_part a

abbrev pub ◌<ℤ◌ : ℤ → ℤ → Type 0
a <ℤ b = pos_part a + neg_part b < pos_part b + neg_part a

abbrev pub ltb_ℤ : ℤ → ℤ → Bool
ltb_ℤ a b = ltb (pos_part a + neg_part b) (pos_part b + neg_part a)

abbrev pub leb_ℤ : ℤ → ℤ → Bool
leb_ℤ a b = leb (pos_part a + neg_part b) (pos_part b + neg_part a)

abbrev pub eqb_ℤ : ℤ → ℤ → Bool
eqb_ℤ a b = leb_ℤ a b && leb_ℤ b a

pub +ℤ_parts :
    (a b : ℤ)
    → pos_part (a +ℤ b) + neg_part a + neg_part b ≡ neg_part (a +ℤ b) + pos_part a + pos_part b
unfolding ◌+ℤ◌
+ℤ_parts a b = ground arith

pub -ℤ_parts :
    (a b : ℤ)
    → pos_part (a -ℤ b) + neg_part a + pos_part b ≡ neg_part (a -ℤ b) + pos_part a + neg_part b
unfolding ◌-ℤ◌
-ℤ_parts a b = ground arith

pub scale_parts :
    (a : ℤ) (n : ℕ) → pos_part (scale a n) + neg_part a * n ≡ neg_part (scale a n) + pos_part a * n
unfolding scale
scale_parts (pos a) n = omega arith
scale_parts (negsuc a) n = ground arith

pub eq_of_parts : (a b : ℤ) → pos_part a + neg_part b ≡ pos_part b + neg_part a → a ≡ b
eq_of_parts a b h = ground arith

pub eqb_ℤ_iff : (a b : ℤ) → (eqb_ℤ a b ≡ true) ↔ (a ≡ b)
eqb_ℤ_iff a b = ground (arith, eq_of_parts a b)

pub ruleset int_laws = (arith, +ℤ_parts, -ℤ_parts, scale_parts, eq_of_parts)

pub ltb_ℤ→lt : (a b : ℤ) → ltb_ℤ a b ≡ true → a <ℤ b
ltb_ℤ→lt a b h = ground arith

pub ltb_ℤ→le : (a b : ℤ) → ltb_ℤ a b ≡ true → a ≤ℤ b
ltb_ℤ→le a b h = ground arith

pub ≤ℤ_trans : (a b c : ℤ) → a ≤ℤ b → b ≤ℤ c → a ≤ℤ c
≤ℤ_trans a b c h k = omega arith

pub leb_ℤ-true : (a b : ℤ) → a ≤ℤ b → leb_ℤ a b ≡ true
leb_ℤ-true a b h = ground arith

pub leb_ℤ-false : (a b : ℤ) → b <ℤ a → leb_ℤ a b ≡ false
leb_ℤ-false a b h = ground arith

pub leb_ℤ→le : (a b : ℤ) → leb_ℤ a b ≡ true → a ≤ℤ b
leb_ℤ→le a b h = ground arith

pub leb_ℤ→ge : (a b : ℤ) → leb_ℤ a b ≡ false → b ≤ℤ a
leb_ℤ→ge a b h = ground arith

pub ltb_ℤ→ge : (a b : ℤ) → ltb_ℤ a b ≡ false → b ≤ℤ a
ltb_ℤ→ge a b h = ground arith

-- The quotient is the largest whose multiple does not pass the dividend.
pub div_ℤ_bounds :
    (z : ℤ) (n : ℕ) → 0 < n → (scale (div_ℤ z n) n ≤ℤ z) × (z <ℤ scale (div_ℤ z n) n +ℤ pos n)
unfolding div_ℤ scale
div_ℤ_bounds (pos a) n h = (grind int_laws, grind int_laws)
div_ℤ_bounds (negsuc a) n h = (grind int_laws, grind int_laws)

pub ltb_ℤ-cases : (a b : ℤ) → (a <ℤ b) ⊎ (b ≤ℤ a)
ltb_ℤ-cases a b = omega arith

pub sub_zero : (a : ℤ) → a -ℤ pos 0 ≡ a
sub_zero a = omega int_laws

pub next_prev : (a : ℤ) → a -ℤ pos 1 +ℤ pos 1 ≡ a
next_prev a = omega int_laws

pub sub_one_more : (a : ℤ) (n : ℕ) → a -ℤ pos 1 -ℤ pos n ≡ a -ℤ pos (suc n)
sub_one_more a n = omega int_laws

pub data ThreeWay (a b : ℤ) : Type 0 where
  lt : a <ℤ b → ThreeWay a b
  eq : a ≡ b → ThreeWay a b
  gt : b <ℤ a → ThreeWay a b

pub three_way : (a b : ℤ) → ThreeWay a b
three_way a b = elim (ltb_ℤ-cases a b) [
  | inl below ↦ lt below
  | inr above ↦ elim (ltb_ℤ-cases b a) [ inl over ↦ gt over | inr under ↦ eq (omega int_laws) ]
]

-- Go's conversions to fixed widths keep the low bits.
abbrev pub of_bits : ℕ → ℕ → ℤ
of_bits half n = if ltb n half then pos n else negsuc (half + half - 1 - n)

-- int32(z)
unfoldable pub int32 : ℤ → ℤ
unfolding mod_ℤ
int32 z = of_bits (2 ^ 31) (mod_ℤ z (2 ^ 32))

-- uint32(z)
unfoldable pub uint32 : ℤ → ℕ
unfolding mod_ℤ
uint32 z = mod_ℤ z (2 ^ 32)

-- int16(z)
unfoldable pub int16 : ℤ → ℤ
unfolding mod_ℤ
int16 z = of_bits (2 ^ 15) (mod_ℤ z (2 ^ 16))

-- int64(n) of a uint64
unfoldable pub int64 : ℕ → ℤ
int64 n = of_bits (2 ^ 63) (n % 2 ^ 64)

abbrev pub IsInt32 : ℤ → Type 0
IsInt32 z = (pos_part z < 2 ^ 31) × (neg_part z ≤ 2 ^ 31)

-- A conversion is the identity on what fits.
pub int32_id : (z : ℤ) → IsInt32 z → int32 z ≡ z
unfolding int32
int32_id (pos n) h = ground arith
int32_id (negsuc n) h = ground arith

pub int32-IsInt32 : (z : ℤ) → IsInt32 (int32 z)
unfolding int32
int32-IsInt32 (pos n) = ground arith
int32-IsInt32 (negsuc n) = ground arith

abbrev pub IsInt16 : ℤ → Type 0
IsInt16 z = (pos_part z < 2 ^ 15) × (neg_part z ≤ 2 ^ 15)

pub int16_id : (z : ℤ) → IsInt16 z → int16 z ≡ z
unfolding int16
int16_id (pos n) h = ground arith
int16_id (negsuc n) h = ground arith
