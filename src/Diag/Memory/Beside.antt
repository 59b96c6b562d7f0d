-- ===== src/Diag/Memory/Beside.antt =====
-- The memory tests (app-rot/src/bin/dram_init_bootmcu.rs) where the memory is a part of the state.
use mcu_runtime.Base.{ℕ, suc, ◌≡◌, refl, sym, ap, ◌∙◌, List, [], ◌∷◌}
use mcu_runtime.Diag.Memory.{Ram, write_patterns, check_patterns, pattern_test, walking_bit_test}
use mcu_runtime.Diag.Memory.Walking.{bits, walking_bit_test-pattern_test}

-- A memory beside another part of the state.
abbrev pub beside : {L M : Type 0} → Ram M → Ram (L × M)
beside ram = record {
  read_volatile = λ a m. ram.read_volatile a m.1;
  write_volatile = λ a v m. (m.0, ram.write_volatile a v m.1);
}

module _ {L M : Type 0} (ram : Ram M) (base : ℕ) (l : L) where
  write_patterns-beside :
      (vs : List ℕ) (i : ℕ) (m : M)
      → write_patterns (beside ram) base i vs (l, m) ≡ (l, write_patterns ram base i vs m)
  unfolding write_patterns
  write_patterns-beside [] i m = refl
  write_patterns-beside (v ∷ vs) i m = write_patterns-beside vs (suc i) _

  check_patterns-beside :
      (vs : List ℕ) (i : ℕ) (m : M)
      → check_patterns (beside ram) base i vs (l, m) ≡ check_patterns ram base i vs m
  unfolding check_patterns
  check_patterns-beside [] i m = refl
  check_patterns-beside (v ∷ vs) i m = rw (check_patterns-beside vs (suc i) m) refl

  pub pattern_test-beside :
      (vs : List ℕ) (m : M)
      → (pattern_test (beside {L = L} ram) base vs (l, m)).1 ≡ (pattern_test ram base vs m).1
  unfolding pattern_test
  pattern_test-beside vs m =
      ap (check_patterns (beside ram) base 0 vs) (write_patterns-beside vs 0 m)
      ∙ check_patterns-beside vs 0 _

  pub walking_bit_test-beside :
      (n : ℕ) (m : M)
      → (walking_bit_test (beside {L = L} ram) base n (l, m)).1 ≡ (walking_bit_test ram base n m).1
  walking_bit_test-beside n m =
      ap (λ x. x.1) (walking_bit_test-pattern_test (beside ram) base n (l, m))
      ∙ pattern_test-beside (bits 0 n) m
      ∙ ap (λ x. x.1) (sym (walking_bit_test-pattern_test ram base n m))
