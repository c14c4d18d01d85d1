-- ===== src/Common/Int.antt =====
-- C's signed integers: ℤ over the native numbers under the library's names, with the conversions
-- to `int` and `long long` that wrap.
use Prim.Native.Nat.{ℕ, suc, ◌+◌, ◌-◌, ◌%◌, ◌^◌, ◌≤◌, ◌<◌}
use mathlib.Core.Path.{◌≡◌}
use mathlib.Core.Bool.{Bool}
use native.Mathlib.Omega.{arith}
use assignment.Common.Tests.{ltb, leb, if◌then◌else◌}

-- `negsuc n` is -(n + 1).
pub data ℤ : Type 0 where
  pos : ℕ → ℤ
  negsuc : ℕ → ℤ

abbrev pub pos_part : ℤ → ℕ
pos_part (pos n) = n
pos_part (negsuc n) = 0

abbrev pub neg_part : ℤ → ℕ
neg_part (pos n) = 0
neg_part (negsuc n) = suc n

-- a - b, as an integer.
abbrev pub sub_ℕ : ℕ → ℕ → ℤ
sub_ℕ a b = if leb b a then pos (a - b) else negsuc (b - a - 1)

infixl 65 ◌+ℤ◌
infix 50 ◌≤ℤ◌ ◌<ℤ◌
unfoldable pub ◌+ℤ◌ : ℤ → ℤ → ℤ
a +ℤ b = sub_ℕ (pos_part a + pos_part b) (neg_part a + neg_part b)

abbrev pub ◌≤ℤ◌ : ℤ → ℤ → Type 0
a ≤ℤ b = pos_part a + neg_part b ≤ pos_part b + neg_part a

abbrev pub ◌<ℤ◌ : ℤ → ℤ → Type 0
a <ℤ b = pos_part a + neg_part b < pos_part b + neg_part a

abbrev pub ltb_ℤ : ℤ → ℤ → Bool
ltb_ℤ a b = ltb (pos_part a + neg_part b) (pos_part b + neg_part a)

-- The integer that a bit pattern of width w + 1 stands for in two's complement.
abbrev pub signed : ℕ → ℕ → ℤ
signed w m = if ltb m (2 ^ w) then pos m else negsuc (2 ^ (w + 1) - 1 - m)

-- Conversion to a signed type of width w + 1: modulo 2 ^ (w + 1).
abbrev pub wrap : ℕ → ℤ → ℤ
wrap w (pos n) = signed w (n % 2 ^ (w + 1))
wrap w (negsuc n) = signed w (2 ^ (w + 1) - 1 - n % 2 ^ (w + 1))

-- `(int) x`
unfoldable pub to_int : ℤ → ℤ
to_int x = wrap 31 x

-- `(long long) x`
unfoldable pub to_long : ℤ → ℤ
to_long x = wrap 63 x

abbrev pub int_max : ℤ
int_max = pos (2 ^ 31 - 1)

-- An `int` keeps the integers that fit.
pub to_int_fits : (x : ℤ) → negsuc (2 ^ 31 - 1) ≤ℤ x → x ≤ℤ int_max → to_int x ≡ x
unfolding to_int
to_int_fits (pos n) lo hi = ground arith
to_int_fits (negsuc n) lo hi = ground arith

pub to_long_fits : (x : ℤ) → negsuc (2 ^ 63 - 1) ≤ℤ x → x ≤ℤ pos (2 ^ 63 - 1) → to_long x ≡ x
unfolding to_long
to_long_fits (pos n) lo hi = ground arith
to_long_fits (negsuc n) lo hi = ground arith
