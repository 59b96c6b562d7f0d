-- ===== src/Base/Registers.antt =====
-- Setting and clearing one bit of a 32-bit register.
use Prim.Native.Nat.{ℕ, zero, suc, ◌-◌, ◌/◌, ◌^◌, ◌<◌, min, bit_and, bit_or}
use mathlib.Core.Path.{◌≡◌, refl}
use mathlib.Core.Logic.{◌≢◌}
use mathlib.Core.Bool.{Bool, true, false}
use native.Mathlib.Nat.{pow-suc}
use native.Mathlib.Omega.{arith}
use mathlib.Core.Bool.{◌||◌, ◌&&◌}
use mathlib.Core.List.{List, [], ◌∷◌}
use mathlib.Core.Path.{◌∙◌}
use native.Mathlib.Decide.{ℕ_discrete}
use mcu_runtime.Base.Tests.{if◌then◌else◌, ltb, ◌==◌}
use mcu_runtime.Base.Bits.{and_step}
use mcu_runtime.Base.Digits.{bit, bit-or, bit-le_one, bit-pow, bit-pow_other}

-- `value |= bit` or `value &= !bit`, for the bit of weight `2 ^ j`.
unfoldable pub with_bit : ℕ → Bool → ℕ → ℕ
with_bit j true value = bit_or value (2 ^ j)
with_bit j false value = bit_and value (0xffffffff - 2 ^ j)

bit-and : (k a b : ℕ) → bit k (bit_and a b) ≡ min (bit k a) (bit k b)
unfolding bit
bit-and zero a b = omega (arith, and_step a b)
bit-and (suc k) a b =
    let e : bit_and a b / 2 ≡ bit_and (a / 2) (b / 2) = omega (arith, and_step a b) in
    rw e (bit-and k (a / 2) (b / 2))

-- The digits of the complement of a number with `n` digits.
bit-not : (k n x : ℕ) → k < n → x < 2 ^ n → bit k (2 ^ n - 1 - x) ≡ 1 - bit k x
unfolding bit
bit-not k zero x h u = absurd (omega arith)
bit-not zero (suc n) x h u = omega (arith, pow-suc 2 n)
bit-not (suc k) (suc n) x h u =
    let e : (2 ^ suc n - 1 - x) / 2 ≡ 2 ^ n - 1 - x / 2 = omega (arith, pow-suc 2 n) in
    rw e (bit-not k n (x / 2) (omega arith) (omega (arith, pow-suc 2 n)))

pub pow-positive : (n : ℕ) → 0 < 2 ^ n
pow-positive zero = omega arith
pow-positive (suc n) = omega (arith, pow-suc 2 n, pow-positive n)

pow-below : (j n : ℕ) → j < n → 2 ^ j < 2 ^ n
pow-below j zero h = absurd (omega arith)
pow-below zero (suc n) h = omega (arith, pow-suc 2 n, pow-positive n)
pow-below (suc j) (suc n) h = omega (arith, pow-suc 2 j, pow-suc 2 n, pow-below j n (omega arith))

pub with_bit-same :
    (j value : ℕ) (enable : Bool)
    → j < 32
    → bit j (with_bit j enable value) ≡ (if enable then 1 else 0)
unfolding with_bit
with_bit-same j value true h = omega (arith, bit-or j value (2 ^ j), bit-pow j, bit-le_one j value)
with_bit-same j value false h = omega (
  arith,
  bit-and j value (0xffffffff - 2 ^ j),
  bit-not j 32 (2 ^ j) h (pow-below j 32 h),
  bit-pow j,
)

pub with_bit-other :
    (k j value : ℕ) (enable : Bool)
    → k < 32
    → j < 32
    → k ≢ j
    → bit k (with_bit j enable value) ≡ bit k value
unfolding with_bit
with_bit-other k j value true u h d = omega (arith, bit-or k value (2 ^ j), bit-pow_other k j d)
with_bit-other k j value false u h d = omega (
  arith,
  bit-and k value (0xffffffff - 2 ^ j),
  bit-not k 32 (2 ^ j) u (pow-below j 32 h),
  bit-pow_other k j d,
  bit-le_one k value,
)

-- Several bits, one after the other.
abbrev pub with_bits : List ℕ → Bool → ℕ → ℕ
with_bits [] enable value = value
with_bits (j ∷ js) enable value = with_bits js enable (with_bit j enable value)

abbrev pub is_listed : ℕ → List ℕ → Bool
is_listed k [] = false
is_listed k (j ∷ js) = k == j || is_listed k js

abbrev pub all_below : List ℕ → Bool
all_below [] = true
all_below (j ∷ js) = ltb j 32 && all_below js

pub with_bits-bit :
    (k : ℕ) (js : List ℕ) (value : ℕ) (enable : Bool)
    → k < 32
    → all_below js ≡ true
    → bit k (with_bits js enable value)
      ≡ (if is_listed k js then (if enable then 1 else 0) else bit k value)
with_bits-bit k [] value enable h a = refl
with_bits-bit k (j ∷ js) value enable h a =
    let l : j < 32 = ground arith in
    let rest = with_bits-bit k js (with_bit j enable value) enable h (ground arith) in
    rest ∙ elim (ℕ_discrete k j) [
      | yes e ↦
          let here : (k == j) ≡ true = ground arith in
          rw here (rw (e, with_bit-same j value enable l) (ground arith))
      | no d ↦
          let other : (k == j) ≡ false = ground arith in
          rw other (rw (with_bit-other k j value enable h l d) refl)
    ]
