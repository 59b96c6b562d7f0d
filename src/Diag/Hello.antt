-- ===== src/Diag/Hello.antt =====
-- The programs that send a fixed text (app-a35/src/bin/hello_a35.rs and
-- app-rot/src/bin/spi_diag_bootmcu.rs, spi_minimal_bootmcu.rs and uart5_systick.rs). The start-up
-- code in assembly is not modelled.
use mcu_runtime.Base.{
  ℕ, zero, suc, ◌+◌, Bool, true, false, Option, none, some, ◌>>=◌, List, [], ◌∷◌, ◌++◌, replicate,
}
use mcu_runtime.Base.Text.{codes}
use mcu_runtime.Diag.Print.{uart_hex32, uart_dec}
use mcu_runtime.Base.Words.{as_u32}
use mcu_runtime.Diag.Uart.{
  Registers, uart5_base, uart12_base, divisor, set_up, putc, puts, puts_lines,
}
use mcu_runtime.Diag.Ticks.{fast_loop, slow_loop}

module _ {M : Type 0} (io : Registers M) (fuel : ℕ) where
  -- `rust_main` of hello_a35.
  unfoldable pub rust_main : M → Option M
  rust_main m =
      let m1 = io.write_volatile 0x42fffff00 0xa35beef0 m in
      do
        m2 ← puts_lines io uart12_base fuel (codes "\n=== Hello from A35 ===\n") m1
        m3 ← puts_lines io uart12_base fuel (codes "AST2700 CA35 bare-metal Rust\n") m2
        m4 ← puts_lines io uart12_base fuel (codes "DRAM, SLI, and BootMCU handoff complete.\n") m3
        puts_lines io uart12_base fuel (codes "======================\n") m4

  -- `__pre_init` and `main` of spi_diag.
  unfoldable pub spi_diag : M → Option M
  spi_diag m = do
    m1 ← putc io uart12_base fuel b'P' m
    m2 ← putc io uart12_base fuel b'R' m1
    m3 ← puts io uart12_base fuel (replicate 20 b'U') m2
    m4 ← putc io uart12_base fuel b'K' m3
    m5 ← putc io uart12_base fuel b'\r' m4
    putc io uart12_base fuel b'\n' m5

  -- The loop of spi_minimal, for `n` rounds.
  unfoldable pub minimal_ticks : ℕ → ℕ → M → Option M
  minimal_ticks zero count m = some m
  minimal_ticks (suc n) count m = do
    m1 ← puts io uart12_base fuel (codes "tick ") m
    digits ← uart_dec count
    m2 ← puts io uart12_base fuel digits m1
    m3 ← puts io uart12_base fuel (codes "\r\n") m2
    minimal_ticks n (as_u32 (count + 1)) m3

  -- `_rust_entry` of spi_minimal, with `n` rounds of its loop.
  unfoldable pub spi_minimal : ℕ → M → Option M
  unfolding minimal_ticks
  spi_minimal n m = do
    m1 ← puts io uart12_base fuel (codes "\r\nSPI OK!\r\n") m
    minimal_ticks n 0 m1

  -- SysTick with a reload value.
  abbrev enable_systick : ℕ → M → M
  enable_systick reload m =
      io.write_volatile 0xe000e010 0x07
        (io.write_volatile 0xe000e018 0 (io.write_volatile 0xe000e014 reload m))

  -- The lines that the two loops of uart5_systick print, the first with the number of the print.
  unfoldable pub fast_text : ℕ → List ℕ → List ℕ
  fast_text print_count [] = []
  fast_text print_count (t ∷ ticks) =
      codes "ticks="
      ++ (uart_hex32 t
          ++ (codes " prints="
              ++ (uart_hex32 print_count ++ (codes "\r\n" ++ fast_text (print_count + 1) ticks))))

  unfoldable pub slow_text : List ℕ → List ℕ
  slow_text [] = []
  slow_text (t ∷ ticks) = codes "ticks=" ++ (uart_hex32 t ++ (codes "\r\n" ++ slow_text ticks))

  -- What follows a loop that has come to `break`; one that waits for ever is none.
  abbrev after_break : Bool → Option M → Option M
  after_break true m = m
  after_break false m = none

  -- `main` of uart5_systick, for what its two loops load.
  unfoldable pub uart5_systick : List ℕ → List ℕ → M → Option M
  unfolding fast_text slow_text fast_loop slow_loop
  uart5_systick fast slow m =
      let m1 = io.write_volatile 0x7e6e2000 0x1688a8a8 m in
      let (m2, clk_sel4) = io.read_volatile 0x7e6e2310 m1 in
      let m3 = set_up io uart5_base (divisor clk_sel4) m2 in
      let (fast_ticks, fast_ended) = fast_loop fast in
      let (slow_ticks, slow_ended) = slow_loop slow in
      do
        m4 ← puts io uart5_base fuel (codes "\r\n=== uart5_systick AST1060 ===\r\n") m3
        m5 ← puts io uart5_base fuel (codes "Enabling SysTick (reload=24, 1MHz)...\r\n") m4
        m6 ←
            puts io uart5_base fuel (codes "SysTick enabled. Printing ticks...\r\n")
              (enable_systick 24 m5)
        m7 ← after_break fast_ended (puts io uart5_base fuel (fast_text 0 fast_ticks) m6)
        m8 ←
            puts io uart5_base fuel (codes "SysTick disabled. Still alive.\r\n")
              (io.write_volatile 0xe000e010 0 m7)
        m9 ← puts io uart5_base fuel (codes "Enabling SysTick (reload=24999, 1kHz)...\r\n") m8
        m10 ←
            after_break slow_ended
              (puts io uart5_base fuel (slow_text slow_ticks) (enable_systick 24999 m9))
        puts io uart5_base fuel (codes "=== ALL TESTS PASSED ===\r\n") m10
