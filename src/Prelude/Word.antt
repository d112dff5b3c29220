-- ===== src/Prelude/Word.antt =====
-- Machine words as native numbers: an `intN_t` is its bit pattern, below 2 ^ N.
use Prim.Native.Nat.{ℕ, zero, suc, ◌+◌, ◌-◌, ◌*◌, ◌/◌, ◌%◌, ◌^◌, ◌≤◌, ◌<◌, bit_or, max}
use Prim.Native.Nat.{digits, bit_or-bitwise}
use mathlib.Core.Path.{◌≡◌, refl, ap, ◌∙◌}
use native.Mathlib.Nat.{pow-suc}
use native.Mathlib.Omega.{arith}

-- The casts to `uint8_t`, `uint16_t` and `uint32_t`.
abbrev pub u8 : ℕ → ℕ
u8 n = n % 256

abbrev pub u16 : ℕ → ℕ
u16 n = n % 65536

abbrev pub u32 : ℕ → ℕ
u32 n = n % 4294967296

-- The library's recursion on binary digits, for `bit_or`, with its fuel.
abbrev or_digits : ℕ → ℕ → ℕ → ℕ
or_digits fuel v w = digits (λ y. y) max fuel v w

one_more : (fuel v w : ℕ) → v ≤ fuel → or_digits (suc fuel) v w ≡ or_digits fuel v w
one_more zero zero w enough = refl
one_more (suc fuel) zero w enough = refl
one_more zero (suc v) w enough = absurd (omega arith)
one_more (suc fuel) (suc v) w enough = rw (one_more fuel (suc v / 2) (w / 2) (omega arith))

spare_fuel : (spare fuel v w : ℕ) → fuel ≡ spare + v → or_digits fuel v w ≡ or_digits v v w
spare_fuel zero fuel v w e = let same : fuel ≡ v = omega arith in rw same
spare_fuel (suc spare) zero v w e = absurd (omega arith)
spare_fuel (suc spare) (suc fuel) v w e =
    one_more fuel v w (omega arith) ∙ spare_fuel spare fuel v w (omega arith)

bit_or_halves : (a b : ℕ) → bit_or a b ≡ bit_or (a / 2) (b / 2) * 2 + max (a % 2) (b % 2)
bit_or_halves zero b = simp bit_or-bitwise (omega arith)
bit_or_halves (suc a) b =
    let h = suc a / 2 in
    simp bit_or-bitwise (omega (arith, spare_fuel (a - h) a h (b / 2) (omega arith)))

bit_or_zero : (k a : ℕ) → a < 2 ^ k → bit_or a 0 ≡ a
bit_or_zero zero a h = let e : a ≡ 0 = omega arith in rw e
bit_or_zero (suc k) a h =
    omega (arith, bit_or_halves a 0, bit_or_zero k (a / 2) (omega (arith, pow-suc 2 k)))

pub bit_or_shifted : (w k q r : ℕ) → q < 2 ^ w → r < 2 ^ k → bit_or (q * 2 ^ k) r ≡ q * 2 ^ k + r
bit_or_shifted w zero q r fits small =
    let e : r ≡ 0 = omega arith in
    let one : q * 2 ^ 0 ≡ q = omega arith in rw (e, one, bit_or_zero w q fits) (omega arith)
bit_or_shifted w (suc k) q r fits small = omega (
  arith,
  bit_or_halves (q * 2 ^ suc k) r,
  ap (λ (t : ℕ). q * t) (pow-suc 2 k),
  ap (λ (t : ℕ). bit_or t (r / 2)) (half q),
  bit_or_shifted w k q (r / 2) fits (omega (arith, pow-suc 2 k)),
)
  where
    half : (p : ℕ) → p * 2 ^ suc k / 2 ≡ p * 2 ^ k
    half p = omega (arith, ap (λ (t : ℕ). p * t) (pow-suc 2 k))

-- `(hi << 8) | lo` of two bytes.
pub bit_or_bytes : (hi lo : ℕ) → hi < 256 → lo < 256 → bit_or (hi * 256) lo ≡ hi * 256 + lo
bit_or_bytes hi lo h l = bit_or_shifted 8 8 hi lo h l
