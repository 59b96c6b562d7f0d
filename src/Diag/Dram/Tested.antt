-- ===== src/Diag/Dram/Tested.antt =====
-- When the memory programs (app-rot/src/bin/dram_init_bootmcu.rs and sli_init_bootmcu.rs) come to
-- their last message.
use mcu_runtime.Base.{
  ℕ, zero, suc, ◌+◌, ◌≡◌, refl, sym, ap, ◌∙◌, Bool, true, false, ◌↔◌, List, ◌++◌, Result, ok, err,
  arith,
}
use mcu_runtime.Base.Text.{codes}
use mcu_runtime.Bootmcu.Halt.{Boot}
use mcu_runtime.Diag.Decides.{ends, is_ok, Decides, bind_Decides, both}
use mcu_runtime.Diag.Memory.Beside.{beside, pattern_test-beside, walking_bit_test-beside}
use mcu_runtime.Diag.Memory.{add, pattern_test, walking_bit_test}
use mcu_runtime.Diag.Memory.Wired.{wired, IsCarried, pattern_test_iff}
use mcu_runtime.Diag.Memory.Walking.{IsWalked, walking_bit_test_iff}
use mcu_runtime.Diag.Dram.{
  DeviceId, HwRev, DdrType, DramError, SliError, Hal, dram_base, patterns, smoke_patterns, print,
  halt, banner, trained, training, verdict, test, print_words, dram_init, linked, sli_init,
}

module _ {M : Type 0} (hal : Hal M) where
  trained_iff :
      (r : Result (Unit {0}) DramError) (m : M) → (ends (trained hal r m) ≡ true) ↔ (is_ok r ≡ true)
  unfolding trained ends print halt
  trained_iff (ok _) m = (λ h. refl, λ h. refl)
  trained_iff (err _) m = (λ h. h, λ h. h)

  linked_iff :
      (r : Result (Unit {0}) SliError) (m : M) → (ends (linked hal r m) ≡ true) ↔ (is_ok r ≡ true)
  unfolding linked ends print halt
  linked_iff (ok _) m = (λ h. refl, λ h. refl)
  linked_iff (err SliError.remote_timeout) m = (λ h. h, λ h. h)

  verdict_iff : (passed : Bool) (m : M) → (ends (verdict hal passed m) ≡ true) ↔ (passed ≡ true)
  unfolding verdict ends print halt
  verdict_iff true m = (λ h. refl, λ h. refl)
  verdict_iff false m = (λ h. h, λ h. h)

  -- Training goes on where it succeeds, and a test where it passes.
  training-Decides :
      {P : Type 0} (front back : List ℕ)
      → ((m : M) → (is_ok (hal.sdrammc_init m).1 ≡ true) ↔ P)
      → Decides (training hal front back) P
  unfolding training print
  training-Decides front back i m = both (trained_iff _ _) (i _)

  test-Decides :
      {P : Type 0} (title : List ℕ) (run : M → M × Bool)
      → ((m : M) → ((run m).1 ≡ true) ↔ P)
      → Decides (test hal title run) P
  unfolding test print
  test-Decides title run i m = both (verdict_iff _ _) (i _)

-- A board: what its UART has sent, and a memory by its wires. Its training gives `trains`, and the
-- link to the other die gives `links`.
abbrev pub board :
    (ℕ → ℕ)
    → (ℕ → ℕ)
    → Result (Unit {0}) DramError
    → Result (Unit {0}) SliError
    → DeviceId × HwRev
    → DdrType
    → Hal (List ℕ × (ℕ → ℕ))
board cell lines trains links rev ddr = record {
  ram = beside (wired cell lines);
  init = λ m. m;
  new_uart12 = λ m. m;
  blocking_write = λ s m. (m.0 ++ s, m.1);
  silicon_rev = λ m. rev;
  ddr_type_strap = λ m. ddr;
  sdrammc_init = λ m. (m, trains);
  sli_init_f = λ m. m;
  sli_init_r = λ m. (m, links);
}

module _ (cell lines : ℕ → ℕ) (trains : Result (Unit {0}) DramError)
    (links : Result (Unit {0}) SliError) (rev : DeviceId × HwRev) (ddr : DdrType) where
  abbrev hal : Hal (List ℕ × (ℕ → ℕ))
  hal = board cell lines trains links rev ddr

  pattern-Decides :
      (title : List ℕ) (base : ℕ) (vs : List ℕ)
      → Decides (test hal title (pattern_test hal.ram base vs)) (IsCarried cell lines base vs)
  pattern-Decides title base vs = test-Decides hal title _ (λ m.
      rw (pattern_test-beside (wired cell lines) base m.0 vs m.1)
        (pattern_test_iff cell lines base vs m.1))

  walking-Decides :
      (title : List ℕ) (base n : ℕ)
      → Decides (test hal title (walking_bit_test hal.ram base n)) (IsWalked cell lines base n)
  walking-Decides title base n = test-Decides hal title _ (λ m.
      rw (walking_bit_test-beside (wired cell lines) base m.0 n m.1)
        (walking_bit_test_iff cell lines base n m.1))

  train : (front back : List ℕ) → Decides (training hal front back) (is_ok trains ≡ true)
  train front back = training-Decides hal front back (λ m. (λ h. h, λ h. h))

  -- What `dram_init` needs.
  abbrev pub IsTrained : Type 0
  IsTrained =
      (is_ok trains ≡ true)
      × IsCarried cell lines dram_base patterns
      × IsWalked cell lines (dram_base + 0x1000) 256
      × IsCarried cell lines (dram_base + 0x40000000) patterns

  -- A part that always goes on.
  abbrev Goes : {A : Type 0} → Boot (List ℕ × (ℕ → ℕ)) A → Type 0
  Goes p = Decides p (Unit {0})

  banner-Goes : (title : List ℕ) → Goes (banner hal title)
  unfolding banner ends print
  banner-Goes title m = (λ h. tt, λ h. refl)

  print-Goes : (s : List ℕ) → Goes (print hal s)
  unfolding ends print
  print-Goes s m = (λ h. tt, λ h. refl)

  print_words-Goes : (i n : ℕ) → Goes (print_words hal i n)
  unfolding print_words ends print
  print_words-Goes i zero m = (λ h. tt, λ h. refl)
  print_words-Goes i (suc n) m = print_words-Goes (suc i) n _

  -- On a board with a memory that is given by its wires, whatever it holds, `dram_init` comes to its
  -- last message exactly where the training succeeds and the wires carry the patterns at 0x80000000
  -- and at 0xC0000000 and the bits that walk behind 0x80001000.
  pub dram_init_iff : (m : List ℕ × (ℕ → ℕ)) → (ends (dram_init hal m) ≡ true) ↔ IsTrained
  unfolding dram_init
  dram_init_iff m =
      both
        (bind_Decides (banner hal _) _ (banner-Goes _)
          (λ _. bind_Decides (training hal _ _) _ (train _ _) (λ _.
            bind_Decides (test hal _ _) _ (pattern-Decides _ dram_base patterns) (λ _.
              bind_Decides (test hal _ _) _ (walking-Decides _ (dram_base + 0x1000) 256) (λ _.
                bind_Decides (test hal _ _) _ (pattern-Decides _ (dram_base + 0x40000000) patterns)
                  (λ _. bind_Decides (print hal _) _ (print-Goes _) (λ _.
                    bind_Decides (print_words hal 0 4) _ (print_words-Goes 0 4)
                      (λ _. bind_Decides (print hal _) _ (print-Goes _) (λ _. print-Goes _))))))))
          m)
        (
          λ (_, (t, (a, (w, (b, _))))). (t, a, w, b),
          λ (t, a, w, b). (tt, (t, (a, (w, (b, (tt, (tt, (tt, tt)))))))),
        )

  -- What `sli_init` needs.
  abbrev pub IsLinked : Type 0
  IsLinked =
      (is_ok trains ≡ true) × (is_ok links ≡ true) × IsCarried cell lines dram_base smoke_patterns

  linked-Decides : Decides (linked hal links) (is_ok links ≡ true)
  linked-Decides m = linked_iff hal links m

  -- `sli_init` comes to its last message exactly where the training and the link succeed and the
  -- wires carry its four patterns.
  pub sli_init_iff : (m : List ℕ × (ℕ → ℕ)) → (ends (sli_init hal m) ≡ true) ↔ IsLinked
  unfolding sli_init
  sli_init_iff m =
      both
        (bind_Decides (banner hal _) _ (banner-Goes _)
          (λ _. bind_Decides (print hal (codes "SLI init_f... ")) _ (print-Goes _) (λ _.
            bind_Decides (print hal (codes "OK\r\n")) _ (print-Goes _) (λ _.
              bind_Decides (training hal (codes "DRAM (") (codes ") training... ")) _ (train _ _)
                (λ _. bind_Decides (print hal (codes "SLI init_r... ")) _ (print-Goes _) (λ _.
                  bind_Decides (linked hal links) _ linked-Decides (λ _.
                    bind_Decides (test hal (codes "DRAM R/W test... ") _) _
                      (pattern-Decides _ dram_base smoke_patterns)
                      (λ _. print-Goes (codes "\r\n=== SLI OK ===\r\n"))))))))
          m)
        (
          λ (_, (_, (_, (t, (_, (l, (a, _))))))). (t, l, a),
          λ (t, l, a). (tt, (tt, (tt, (t, (tt, (l, (a, tt))))))),
        )

  -- Where address line 30 of the board's memory selects nothing, `dram_init` comes to its last message
  -- exactly where the training succeeds and the wires carry the patterns at 0x80000000 and the bits
  -- that walk behind 0x80001000: the test at 0xC0000000 adds nothing.
  pub dram_init-blind :
      (m : List ℕ × (ℕ → ℕ))
      → ((a : ℕ) → cell (a + 0x40000000) ≡ cell a)
      → (ends (dram_init hal m) ≡ true) ↔ (
          (is_ok trains ≡ true)
          × IsCarried cell lines dram_base patterns
          × IsWalked cell lines (dram_base + 0x1000) 256)
  dram_init-blind m h =
      both (dram_init_iff m) (λ (t, a, w, b). (t, a, w), λ (t, a, w). (t, a, w, raised a))
    where
      place : (k : ℕ) → cell (add (dram_base + 0x40000000) k) ≡ cell (add dram_base k)
      place k = ap cell (omega arith) ∙ h (add dram_base k)

      raised :
          IsCarried cell lines dram_base patterns
          → IsCarried cell lines (dram_base + 0x40000000) patterns
      raised c = record {
        data_lines = c.data_lines;
        address_lines = λ j k l r e. c.address_lines j k l r (sym (place j) ∙ e ∙ place k);
      }
