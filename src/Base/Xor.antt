-- ===== src/Base/Xor.antt =====
-- Exclusive or, for the generator of the BootMCU.
use Prim.Native.Nat.{ℕ, zero, suc, ◌+◌, ◌*◌, ◌/◌, ◌%◌, ◌^◌, ◌<◌, differ, bit_xor, bit_xor-bitwise}
use mathlib.Core.Path.{◌≡◌, refl}
use native.Mathlib.Nat.{pow-suc}
use native.Mathlib.Omega.{arith}
use mcu_runtime.Base.Bits.{digits_fuel}

zero-xor : (b : ℕ) → bit_xor 0 b ≡ b
zero-xor b = bit_xor-bitwise 0 b

-- The lowest digit of an exclusive or.
xor_step : (a b : ℕ) → bit_xor a b ≡ bit_xor (a / 2) (b / 2) * 2 + differ (a % 2) (b % 2)
xor_step zero b = omega (arith, zero-xor b, zero-xor (b / 2))
xor_step (suc a) b = omega (
  arith,
  bit_xor-bitwise (suc a) b,
  bit_xor-bitwise (suc a / 2) (b / 2),
  digits_fuel (λ b. b) differ a (suc a / 2) (suc a / 2) (b / 2) (omega arith) (omega arith),
)

differ-zero : (x y : ℕ) → x < 2 → y < 2 → differ x y ≡ 0 → x ≡ y
differ-zero zero y hx hy h = omega (arith, h)
differ-zero (suc x) zero hx hy h = h
differ-zero (suc zero) (suc zero) hx hy h = refl
differ-zero (suc zero) (suc (suc y)) hx hy h = absurd (omega arith)
differ-zero (suc (suc x)) (suc y) hx hy h = absurd (omega arith)

differ-below : (x y : ℕ) → x < 2 → y < 2 → differ x y < 2
differ-below zero y hx hy = hy
differ-below (suc x) zero hx hy = hx
differ-below (suc zero) (suc zero) hx hy = omega arith
differ-below (suc zero) (suc (suc y)) hx hy = absurd (omega arith)
differ-below (suc (suc x)) (suc y) hx hy = absurd (omega arith)

-- Only equal numbers cancel.
pub xor-zero_below : (n a b : ℕ) → a < 2 ^ n → b < 2 ^ n → bit_xor a b ≡ 0 → a ≡ b
xor-zero_below zero a b ha hb h = omega arith
xor-zero_below (suc n) a b ha hb h =
    let high : bit_xor (a / 2) (b / 2) ≡ 0 = omega (arith, xor_step a b) in
    let low : differ (a % 2) (b % 2) ≡ 0 = omega (arith, xor_step a b) in
    omega (
      arith,
      xor-zero_below n (a / 2) (b / 2) (omega (arith, pow-suc 2 n)) (omega (arith, pow-suc 2 n))
          high,
      differ-zero (a % 2) (b % 2) (omega arith) (omega arith) low,
    )

pub xor-below : (n a b : ℕ) → a < 2 ^ n → b < 2 ^ n → bit_xor a b < 2 ^ n
xor-below zero a b ha hb =
    let (e, f) : (a ≡ 0) × (b ≡ 0) = (omega arith, omega arith) in
    rw e (rw f (omega (arith, zero-xor 0)))
xor-below (suc n) a b ha hb = omega (
  arith,
  xor_step a b,
  pow-suc 2 n,
  xor-below n (a / 2) (b / 2) (omega (arith, pow-suc 2 n)) (omega (arith, pow-suc 2 n)),
  differ-below (a % 2) (b % 2) (omega arith) (omega arith),
)
