-- ===== src/Base/Bits.antt =====
-- Masks and disjoint unions of bits as arithmetic, for the bit operations of the codec and of the
-- SPI filter.
use Prim.Native.Nat.{
  ℕ, zero, suc, ◌+◌, ◌*◌, ◌/◌, ◌%◌, ◌^◌, ◌≤◌, ◌<◌, min, max, bit_and, bit_or, digits,
  bit_and-bitwise, bit_or-bitwise,
}
use mathlib.Core.Path.{◌≡◌, refl, ap, ◌∙◌}
use native.Mathlib.Nat.{pow-suc}
use native.Mathlib.Omega.{arith}

-- Any count of digits that is at least the number gives the same result.
pub digits_fuel :
    (z : ℕ → ℕ) (f : ℕ → ℕ → ℕ) (n m a b : ℕ) → a ≤ n → a ≤ m → digits z f n a b ≡ digits z f m a b
digits_fuel z f zero zero a b p q = refl
digits_fuel z f zero (suc m) zero b p q = refl
digits_fuel z f zero (suc m) (suc a) b p q = absurd (omega arith)
digits_fuel z f (suc n) zero zero b p q = refl
digits_fuel z f (suc n) zero (suc a) b p q = absurd (omega arith)
digits_fuel z f (suc n) (suc m) zero b p q = refl
digits_fuel z f (suc n) (suc m) (suc a) b p q =
    omega (arith, digits_fuel z f n m (suc a / 2) (b / 2) (omega arith) (omega arith))

zero-and : (b : ℕ) → bit_and 0 b ≡ 0
zero-and b = bit_and-bitwise 0 b

zero-or : (b : ℕ) → bit_or 0 b ≡ b
zero-or b = bit_or-bitwise 0 b

-- The lowest digit of a conjunction and of a disjunction.
pub and_step : (a b : ℕ) → bit_and a b ≡ bit_and (a / 2) (b / 2) * 2 + min (a % 2) (b % 2)
and_step zero b = omega (arith, zero-and b, zero-and (b / 2))
and_step (suc a) b = omega (
  arith,
  bit_and-bitwise (suc a) b,
  bit_and-bitwise (suc a / 2) (b / 2),
  digits_fuel (λ b. zero) min a (suc a / 2) (suc a / 2) (b / 2) (omega arith) (omega arith),
)

pub or_step : (a b : ℕ) → bit_or a b ≡ bit_or (a / 2) (b / 2) * 2 + max (a % 2) (b % 2)
or_step zero b = omega (arith, zero-or b, zero-or (b / 2))
or_step (suc a) b = omega (
  arith,
  bit_or-bitwise (suc a) b,
  bit_or-bitwise (suc a / 2) (b / 2),
  digits_fuel (λ b. b) max a (suc a / 2) (suc a / 2) (b / 2) (omega arith) (omega arith),
)

and-zero_below : (n a : ℕ) → a ≤ n → bit_and a 0 ≡ 0
and-zero_below n zero h = zero-and 0
and-zero_below zero (suc a) h = absurd (omega arith)
and-zero_below (suc n) (suc a) h =
    omega (arith, and_step (suc a) 0, and-zero_below n (suc a / 2) (omega arith))

and-zero : (a : ℕ) → bit_and a 0 ≡ 0
and-zero a = and-zero_below a a (omega arith)

-- `a & 0x7`.
pub and_seven : (a : ℕ) → bit_and a 0x7 ≡ a % 8
and_seven a =
    omega
      (arith, and_step a 7, and_step (a / 2) 3, and_step (a / 2 / 2) 1, and-zero (a / 2 / 2 / 2))

-- `a & 0xf`.
pub and_0xf : (a : ℕ) → bit_and a 0xf ≡ a % 16
and_0xf a = omega (arith, and_step a 15, and_seven (a / 2))

-- `a & 0x7f`.
pub and_0x7f : (a : ℕ) → bit_and a 0x7f ≡ a % 128
and_0x7f a =
    let b = a / 2 / 2 / 2 in
    omega (
      arith,
      and_step a 127,
      and_step (a / 2) 63,
      and_step (a / 2 / 2) 31,
      and_step b 15,
      and_seven (b / 2),
    )

-- `a & 0xff`.
pub and_0xff : (a : ℕ) → bit_and a 0xff ≡ a % 256
and_0xff a = omega (arith, and_step a 255, and_0x7f (a / 2))

and-double : (a m : ℕ) → bit_and a (m * 2) ≡ bit_and (a / 2) m * 2
and-double a m = let e : m * 2 / 2 ≡ m = omega arith in rw (and_step a (m * 2), e) (omega arith)

-- `a & 0x80` of a byte.
pub and_0x80 : (a : ℕ) → a < 256 → bit_and a 0x80 ≡ a / 128 * 128
and_0x80 a h =
    let b = a / 2 / 2 / 2 / 2 in
    omega (
      arith,
      and-double a 64,
      and-double (a / 2) 32,
      and-double (a / 2 / 2) 16,
      and-double (a / 2 / 2 / 2) 8,
      and-double b 4,
      and-double (b / 2) 2,
      and-double (b / 2 / 2) 1,
      and_step (b / 2 / 2 / 2) 1,
      and-zero (b / 2 / 2 / 2 / 2),
    )

or-double : (a x : ℕ) → bit_or a (x * 2) ≡ bit_or (a / 2) x * 2 + a % 2
or-double a x = let e : x * 2 / 2 ≡ x = omega arith in rw (or_step a (x * 2), e) (omega arith)

-- Bits below `s` and bits from `s` on do not meet, and their union is their sum.
pub or_shifted : (s a b : ℕ) → a < 2 ^ s → bit_or a (b * 2 ^ s) ≡ a + b * 2 ^ s
or_shifted zero a b h = let e : a ≡ 0 = omega arith in rw e (zero-or (b * 2 ^ 0) ∙ omega arith)
or_shifted (suc s) a b h =
    let e : b * 2 ^ suc s ≡ b * 2 ^ s * 2 = omega (arith, ap (λ (t : ℕ). b * t) (pow-suc 2 s)) in
    rw e
      (or-double a (b * 2 ^ s) ∙ omega (arith, or_shifted s (a / 2) b (omega (arith, pow-suc 2 s))))

-- `a | 0x80`.
pub or_0x80 : (a : ℕ) → a < 128 → bit_or a 0x80 ≡ a + 128
or_0x80 a h = or_shifted 7 a 1 h
