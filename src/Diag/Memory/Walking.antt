-- ===== src/Diag/Memory/Walking.antt =====
-- What the walking-bit test (app-rot/src/bin/dram_init_bootmcu.rs) finds in a memory by its wires.
use native.Mathlib.Decide.{ℕ_discrete}
use mcu_runtime.Base.{
  ℕ, zero, suc, ◌+◌, ◌%◌, ◌^◌, ◌<◌, ◌≡◌, refl, sym, ap, ◌∙◌, true, ◌↔◌, List, [], ◌∷◌, length,
  get_or, arith,
}
use mcu_runtime.Base.Digits.{bit, bit-pow, bit-pow_other}
use mcu_runtime.Diag.Memory.{
  Ram, add, write_patterns, check_patterns, pattern_test, write_bits, check_bits, walking_bit_test,
}
use mcu_runtime.Diag.Memory.Wired.{wired, IsCarried, pattern_test_iff}

-- The bits of the test as a list of patterns.
abbrev pub bits : ℕ → ℕ → List ℕ
bits i zero = []
bits i (suc n) = 2 ^ (i % 32) ∷ bits (suc i) n

length-bits : (i n : ℕ) → length (bits i n) ≡ n
length-bits i zero = refl
length-bits i (suc n) = ap suc (length-bits (suc i) n)

get_or-bits : (i n k : ℕ) → k < n → get_or (bits i n) k 0 ≡ 2 ^ ((i + k) % 32)
get_or-bits i zero k h = absurd (omega arith)
get_or-bits i (suc n) zero h = let w : i + 0 ≡ i = omega arith in rw w refl
get_or-bits i (suc n) (suc k) h =
    let w : i + suc k ≡ suc i + k = omega arith in rw w (get_or-bits (suc i) n k (omega arith))

bits_word : (n k : ℕ) → k < n → get_or (bits 0 n) k 0 ≡ 2 ^ (k % 32)
bits_word n k h = get_or-bits 0 n k h ∙ ap (λ (t : ℕ). 2 ^ (t % 32)) (omega arith)

module _ {M : Type 0} (ram : Ram M) (base : ℕ) where
  write_bits-patterns :
      (i n : ℕ) (m : M) → write_bits ram base i n m ≡ write_patterns ram base i (bits i n) m
  unfolding write_bits write_patterns
  write_bits-patterns i zero m = refl
  write_bits-patterns i (suc n) m = write_bits-patterns (suc i) n _

  check_bits-patterns :
      (i n : ℕ) (m : M) → check_bits ram base i n m ≡ check_patterns ram base i (bits i n) m
  unfolding check_bits check_patterns
  check_bits-patterns i zero m = refl
  check_bits-patterns i (suc n) m = rw (check_bits-patterns (suc i) n m) refl

  -- The walking-bit test is a pattern test.
  pub walking_bit_test-pattern_test :
      (n : ℕ) (m : M) → walking_bit_test ram base n m ≡ pattern_test ram base (bits 0 n) m
  unfolding walking_bit_test pattern_test
  walking_bit_test-pattern_test n m = rw (write_bits-patterns 0 n m, check_bits-patterns 0 n _) refl

-- A power of two tells its exponent.
pow-inj : (i j : ℕ) → 2 ^ i ≡ 2 ^ j → i ≡ j
pow-inj i j h = elim (ℕ_discrete i j) [
  | yes e ↦ e
  | no d ↦ absurd (omega (arith, bit-pow j, bit-pow_other j i (λ e. d (sym e)), ap (bit j) h))
]

module _ (cell lines : ℕ → ℕ) (base : ℕ) where
  -- The data lines carry every bit that walks, and words of the range that share a cell are apart
  -- by a multiple of 32 words.
  pub record IsWalked (count : ℕ) : Type 0 where
    pub data_lines : (k : ℕ) → k < count → lines (2 ^ (k % 32)) ≡ 2 ^ (k % 32)
    pub address_lines :
        (j k : ℕ) → j < count → k < count → cell (add base j) ≡ cell (add base k) → j % 32 ≡ k % 32

  carried-IsWalked : (n : ℕ) → IsCarried cell lines base (bits 0 n) → IsWalked n
  carried-IsWalked n c = record {
    data_lines = λ k l.
        let w = bits_word n k l in
        ap lines (sym w) ∙ c.data_lines k (omega (arith, length-bits 0 n)) ∙ w;
    address_lines = λ j k h l e.
        let inside = length-bits 0 n in
        let same = c.address_lines j k (omega (arith, inside)) (omega (arith, inside)) e in
        pow-inj (j % 32) (k % 32) (sym (bits_word n j h) ∙ same ∙ bits_word n k l);
  }

  walked-IsCarried : (n : ℕ) → IsWalked n → IsCarried cell lines base (bits 0 n)
  walked-IsCarried n w =
      let inside = length-bits 0 n in
      record {
        data_lines = λ k l.
            let l' : k < n = omega (arith, inside) in rw (bits_word n k l') (w.data_lines k l');
        address_lines = λ j k h l e.
            let (h', l') : (j < n) × (k < n) = (omega (arith, inside), omega (arith, inside)) in
            rw (bits_word n j h', bits_word n k l')
              (ap (λ (t : ℕ). 2 ^ t) (w.address_lines j k h' l' e));
      }

  -- `walking_bit_test` succeeds exactly where the data lines carry every bit that walks and words
  -- that share a cell are apart by a multiple of 32 words, whatever the memory held.
  pub walking_bit_test_iff :
      (count : ℕ) (m : ℕ → ℕ)
      → ((walking_bit_test (wired cell lines) base count m).1 ≡ true) ↔ IsWalked count
  walking_bit_test_iff count m =
      let (sound, complete) = pattern_test_iff cell lines base (bits 0 count) m in
      rw (walking_bit_test-pattern_test (wired cell lines) base count m)
        (λ t. carried-IsWalked count (sound t), λ w. complete (walked-IsCarried count w))
