-- ===== src/Base/Int.antt =====
-- Signed machine integers (`int`, `int64`, `time.Duration`) as integers over the native numbers.
-- The values of this program stay far below 2 ^ 63, so no sum wraps.
use Prim.Native.Nat.{ℕ, suc, ◌+◌, ◌-◌, ◌*◌, ◌%◌, ◌≤◌, ◌<◌}
use mathlib.Core.Bool.{Bool, true, false}
use mathlib.Core.Path.{◌≡◌}
use native.Mathlib.Omega.{arith}
use signalmesh.Base.Tests.{ltb, leb, leb→le, if◌then◌else◌}

-- `negsuc n` is -(n + 1).
pub data ℤ : Type 0 where
  pos : ℕ → ℤ
  negsuc : ℕ → ℤ

abbrev pub pos_part : ℤ → ℕ
pos_part (pos n) = n
pos_part (negsuc n) = 0

abbrev pub neg_part : ℤ → ℕ
neg_part (pos n) = 0
neg_part (negsuc n) = suc n

-- a - b, as an integer.
abbrev pub sub_ℕ : ℕ → ℕ → ℤ
sub_ℕ a b = if leb b a then pos (a - b) else negsuc (b - a - 1)

abbrev pub ltb_ℤ : ℤ → ℤ → Bool
ltb_ℤ a b = ltb (pos_part a + neg_part b) (pos_part b + neg_part a)

abbrev pub leb_ℤ : ℤ → ℤ → Bool
leb_ℤ a b = leb (pos_part a + neg_part b) (pos_part b + neg_part a)

infix 50 ◌<ℤ◌ ◌≤ℤ◌
abbrev pub ◌<ℤ◌ : ℤ → ℤ → Type 0
a <ℤ b = pos_part a + neg_part b < pos_part b + neg_part a

abbrev pub ◌≤ℤ◌ : ℤ → ℤ → Type 0
a ≤ℤ b = pos_part a + neg_part b ≤ pos_part b + neg_part a

pub leb_ℤ→le : (a b : ℤ) → leb_ℤ a b ≡ true → a ≤ℤ b
leb_ℤ→le a b h = leb→le _ _ h

pub leb_ℤ→lt : (a b : ℤ) → leb_ℤ a b ≡ false → b <ℤ a
leb_ℤ→lt a b h = ground arith

-- A product with a natural number, before it wraps.
abbrev pub mul_pos : ℤ → ℕ → ℤ
mul_pos (pos n) k = pos (n * k)
mul_pos (negsuc n) k = sub_ℕ 0 (suc n * k)

-- An `int64` that holds m of the 2 ^ 64 bit patterns.
abbrev from_bits : ℕ → ℤ
from_bits m = if ltb m 9223372036854775808 then pos m else negsuc (18446744073709551615 - m)

-- The `int64` (or `int`, on the 64-bit targets) with which an exact result is represented.
abbrev pub wrap64 : ℤ → ℤ
wrap64 (pos n) = from_bits (n % 18446744073709551616)
wrap64 (negsuc n) = from_bits (18446744073709551615 - n % 18446744073709551616)

-- a + 1, as an `int`.
abbrev pub inc : ℤ → ℤ
inc (pos n) = wrap64 (pos (n + 1))
inc (negsuc n) = sub_ℕ 0 n

-- a + b, exactly.
abbrev pub add_ℤ : ℤ → ℤ → ℤ
add_ℤ a b = sub_ℕ (pos_part a + pos_part b) (neg_part a + neg_part b)
