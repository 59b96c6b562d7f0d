-- ===== src/Base/Digits.antt =====
-- The binary digits of a number, for the tables of bits of the SPI filter.
use Prim.Native.Nat.{ℕ, zero, suc, ◌/◌, ◌%◌, ◌^◌, ◌≤◌, max, bit_or}
use mathlib.Core.Path.{◌≡◌, refl}
use mathlib.Core.Logic.{◌≢◌}
use native.Mathlib.Nat.{pow-suc}
use native.Mathlib.Omega.{arith}
use mcu_runtime.Base.Bits.{or_step}

-- The digit of weight `2 ^ k`.
unfoldable pub bit : ℕ → ℕ → ℕ
bit zero a = a % 2
bit (suc k) a = bit k (a / 2)

pub bit-or : (k a b : ℕ) → bit k (bit_or a b) ≡ max (bit k a) (bit k b)
unfolding bit
bit-or zero a b = omega (arith, or_step a b)
bit-or (suc k) a b =
    let e : bit_or a b / 2 ≡ bit_or (a / 2) (b / 2) = omega (arith, or_step a b) in
    rw e (bit-or k (a / 2) (b / 2))

pub bit-le_one : (k a : ℕ) → bit k a ≤ 1
unfolding bit
bit-le_one zero a = omega arith
bit-le_one (suc k) a = bit-le_one k (a / 2)

pub bit-zero : (k : ℕ) → bit k 0 ≡ 0
unfolding bit
bit-zero zero = refl
bit-zero (suc k) = bit-zero k

half_pow : (k : ℕ) → 2 ^ suc k / 2 ≡ 2 ^ k
half_pow k = omega (arith, pow-suc 2 k)

pub bit-pow : (k : ℕ) → bit k (2 ^ k) ≡ 1
unfolding bit
bit-pow zero = refl
bit-pow (suc k) = rw (half_pow k) (bit-pow k)

pub bit-pow_other : (j k : ℕ) → j ≢ k → bit j (2 ^ k) ≡ 0
unfolding bit
bit-pow_other zero zero h = absurd (h refl)
bit-pow_other zero (suc k) h = omega (arith, pow-suc 2 k)
bit-pow_other (suc j) zero h = bit-zero j
bit-pow_other (suc j) (suc k) h = rw (half_pow k) (bit-pow_other j k (λ e. h (omega arith)))
