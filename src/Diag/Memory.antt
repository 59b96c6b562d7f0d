-- ===== src/Diag/Memory.antt =====
-- The memory tests (app-rot/src/bin/dram_init_bootmcu.rs and sli_init_bootmcu.rs).
pub mod Wired
pub mod Walking
pub mod Beside
use mcu_runtime.Base.{
  ℕ, zero, suc, ◌+◌, ◌*◌, ◌%◌, ◌^◌, Bool, true, false, if◌then◌else◌, ◌==◌, List, [], ◌∷◌,
}

-- `read_volatile` and `write_volatile` of a word, which are parameters.
pub record Ram (M : Type 0) : Type 0 where
  pub read_volatile : ℕ → M → ℕ
  pub write_volatile : ℕ → ℕ → M → M

-- `ptr.add(i)` for a pointer to words.
abbrev pub add : ℕ → ℕ → ℕ
add ptr i = ptr + i * 4

module _ {M : Type 0} (ram : Ram M) where
  -- The two loops of `pattern_test`, from word `i` on.
  unfoldable pub write_patterns : ℕ → ℕ → List ℕ → M → M
  write_patterns base i [] m = m
  write_patterns base i (v ∷ vs) m =
      write_patterns base (suc i) vs (ram.write_volatile (add base i) v m)

  unfoldable pub check_patterns : ℕ → ℕ → List ℕ → M → Bool
  check_patterns base i [] m = true
  check_patterns base i (expected ∷ vs) m =
      let rest = check_patterns base (suc i) vs m in
      if ram.read_volatile (add base i) m == expected then rest else false

  unfoldable pub pattern_test : ℕ → List ℕ → M → M × Bool
  unfolding write_patterns check_patterns
  pattern_test base patterns m =
      let m' = write_patterns base 0 patterns m in (m', check_patterns base 0 patterns m')

  -- The two loops of `walking_bit_test`, for `n` words from `i` on; `1u32 << (i % 32)`.
  unfoldable pub write_bits : ℕ → ℕ → ℕ → M → M
  write_bits base i zero m = m
  write_bits base i (suc n) m =
      write_bits base (suc i) n (ram.write_volatile (add base i) (2 ^ (i % 32)) m)

  unfoldable pub check_bits : ℕ → ℕ → ℕ → M → Bool
  check_bits base i zero m = true
  check_bits base i (suc n) m =
      let rest = check_bits base (suc i) n m in
      if ram.read_volatile (add base i) m == 2 ^ (i % 32) then rest else false

  unfoldable pub walking_bit_test : ℕ → ℕ → M → M × Bool
  unfolding write_bits check_bits
  walking_bit_test base count m =
      let m' = write_bits base 0 count m in (m', check_bits base 0 count m')
