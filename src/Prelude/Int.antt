-- ===== src/Prelude/Int.antt =====
-- Signed integers over the native numbers, under the library's names, and the integer that the
-- bit pattern of an `int8_t` or an `int16_t` stands for.
use Prim.Native.Nat.{ℕ, suc, ◌+◌, ◌-◌, ◌%◌, ◌≤◌, ◌<◌}
use mathlib.Core.Path.{◌≡◌}
use mathlib.Core.Bool.{Bool}
use native.Mathlib.Omega.{arith}
use lame.Prelude.Tests.{ltb, if◌then◌else◌}

-- `negsuc n` is -(n + 1).
pub data ℤ : Type 0 where
  pos : ℕ → ℤ
  negsuc : ℕ → ℤ

abbrev pub pos_part : ℤ → ℕ
pos_part (pos n) = n
pos_part (negsuc n) = 0

abbrev pub neg_part : ℤ → ℕ
neg_part (pos n) = 0
neg_part (negsuc n) = suc n

infix 50 ◌≤ℤ◌ ◌<ℤ◌
abbrev pub ◌≤ℤ◌ : ℤ → ℤ → Type 0
a ≤ℤ b = pos_part a + neg_part b ≤ pos_part b + neg_part a

abbrev pub ◌<ℤ◌ : ℤ → ℤ → Type 0
a <ℤ b = pos_part a + neg_part b < pos_part b + neg_part a

abbrev pub ltb_ℤ : ℤ → ℤ → Bool
ltb_ℤ a b = ltb (pos_part a + neg_part b) (pos_part b + neg_part a)

-- The value of an `int8_t` and of an `int16_t`.
abbrev pub signed8 : ℕ → ℤ
signed8 w = if ltb w 128 then pos w else negsuc (255 - w)

abbrev pub signed16 : ℕ → ℤ
signed16 w = if ltb w 32768 then pos w else negsuc (65535 - w)

-- The casts of an `int` to `uint8_t` or `int8_t`, and to `int16_t`: the low bits of its two's
-- complement.
abbrev pub to_byte : ℤ → ℕ
to_byte (pos n) = n % 256
to_byte (negsuc n) = 255 - n % 256

abbrev pub to_half : ℤ → ℕ
to_half (pos n) = n % 65536
to_half (negsuc n) = 65535 - n % 65536

pub signed8-to_byte : (a : ℤ) → negsuc 127 ≤ℤ a → a ≤ℤ pos 127 → signed8 (to_byte a) ≡ a
signed8-to_byte (pos n) lo hi = ground arith
signed8-to_byte (negsuc n) lo hi = ground arith

pub to_byte-lt : (a : ℤ) → to_byte a < 256
to_byte-lt (pos n) = omega arith
to_byte-lt (negsuc n) = omega arith
