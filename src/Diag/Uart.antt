-- ===== src/Diag/Uart.antt =====
-- The programs that drive a UART by its registers (app-rot/src/bin/uart5_bare.rs, uart5_systick.rs,
-- spi_test_bootmcu.rs and spi_diag_bootmcu.rs, app-a35/src/bin/hello_a35.rs). A wait that
-- uses up its fuel is none; a loop without an end is given the number of its rounds, and the delay
-- between them is not modelled.
pub mod Sent
pub mod Baud
use mcu_runtime.Base.{
  ℕ, zero, suc, ◌+◌, ◌*◌, ◌/◌, ◌%◌, ◌^◌, bit_and, bit_or, Bool, if◌then◌else◌, ◌==◌, Option, none,
  some, ◌>>=◌, List, [], ◌∷◌, ◌++◌,
}
use mcu_runtime.Base.Words.{as_u32}
use mcu_runtime.Base.Text.{codes}
use mcu_runtime.Diag.Print.{uart_hex32, uart_dec32}

-- Volatile accesses to the registers, which are parameters: a read may change the state.
pub record Registers (M : Type 0) : Type 0 where
  pub read_volatile : ℕ → M → M × ℕ
  pub write_volatile : ℕ → ℕ → M → M

abbrev pub uart5_base : ℕ
uart5_base = 0x7e784000

abbrev pub uart12_base : ℕ
uart12_base = 0x14c33b00

abbrev pub lsr_thre : ℕ
lsr_thre = 2 ^ 5

abbrev pub lcr_dlab : ℕ
lcr_dlab = 2 ^ 7

abbrev pub lcr_8n1 : ℕ
lcr_8n1 = 0x03

-- The clock of UART5 by bit 4 of SCU310, and the divisor for 115200 baud.
unfoldable pub uart_clk : ℕ → ℕ
uart_clk clk_sel4 = if bit_and (clk_sel4 / 2 ^ 4) 1 == 1 then 192000000 / 13 else 24000000 / 13

unfoldable pub divisor : ℕ → ℕ
unfolding uart_clk
divisor clk_sel4 = uart_clk clk_sel4 / (16 * 115200)

-- `cpacr | (0b11 << 20) | (0b11 << 22)`.
unfoldable pub enable_fpu : ℕ → ℕ
enable_fpu cpacr = bit_or (bit_or cpacr (3 * 2 ^ 20)) (3 * 2 ^ 22)

module _ {M : Type 0} (io : Registers M) (base : ℕ) where
  -- `while read_volatile(LSR) & LSR_THRE == 0 {}`.
  unfoldable pub wait_thre : ℕ → M → Option M
  wait_thre zero m = none
  wait_thre (suc fuel) m =
      let (m', lsr) = io.read_volatile (base + 0x14) m in
      let rest = wait_thre fuel m' in if bit_and lsr lsr_thre == 0 then rest else some m'

  unfoldable pub putc : ℕ → ℕ → M → Option M
  unfolding wait_thre
  putc fuel c m = do m' ← wait_thre fuel m; some (io.write_volatile base c m')

  unfoldable pub puts : ℕ → List ℕ → M → Option M
  puts fuel [] m = some m
  puts fuel (b ∷ s) m = do m' ← putc fuel b m; puts fuel s m'

  -- `uart_puts` of hello_a35, with a carriage return in front of a line feed.
  unfoldable pub puts_lines : ℕ → List ℕ → M → Option M
  puts_lines fuel [] m = some m
  puts_lines fuel (b ∷ s) m = do
    m1 ← if b == b'\n' then putc fuel b'\r' m else some m
    m2 ← putc fuel b m1
    puts_lines fuel s m2

  -- The registers of a UART for a divisor, without interrupts, at eight bits, with its FIFOs reset.
  unfoldable pub set_up : ℕ → M → M
  set_up d m =
      let m1 = io.write_volatile (base + 0x04) 0 m in
      let m2 = io.write_volatile (base + 0x0c) (bit_or lcr_8n1 lcr_dlab) m1 in
      let m3 = io.write_volatile base (bit_and d 0xff) m2 in
      let m4 = io.write_volatile (base + 0x04) (bit_and (d / 2 ^ 8) 0xff) m3 in
      let m5 = io.write_volatile (base + 0x0c) lcr_8n1 m4 in io.write_volatile (base + 0x08) 0x07 m5

  -- The loop of uart5_bare, for `n` rounds.
  unfoldable pub tick_hex : ℕ → ℕ → ℕ → M → Option M
  tick_hex zero fuel count m = some m
  tick_hex (suc n) fuel count m = do
    m1 ← puts fuel (codes "tick ") m
    m2 ← puts fuel (uart_hex32 count) m1
    m3 ← puts fuel (codes "\r\n") m2
    tick_hex n fuel (as_u32 (count + 1)) m3

  -- The loop of spi_test and of spi_minimal, with the number in decimal.
  unfoldable pub tick_dec : ℕ → ℕ → ℕ → M → Option M
  tick_dec zero fuel count m = some m
  tick_dec (suc n) fuel count m = do
    m1 ← puts fuel (codes "tick ") m
    digits ← uart_dec32 count
    m2 ← puts fuel digits m1
    m3 ← puts fuel (codes "\r\n") m2
    tick_dec n fuel (as_u32 (count + 1)) m3

-- `pre_init` of uart5_bare and of uart5_systick.
unfoldable pub pre_init : {M : Type 0} → Registers M → M → M
unfolding enable_fpu
pre_init io m =
    let (m', cpacr) = io.read_volatile 0xe000ed88 m in
    io.write_volatile 0xe000ed88 (enable_fpu cpacr) m'

-- `main` of uart5_bare, with `n` rounds of its loop.
unfoldable pub uart5_bare : {M : Type 0} → Registers M → ℕ → ℕ → M → Option M
uart5_bare io fuel n m =
    let m1 = io.write_volatile 0x7e6e2000 0x1688a8a8 m in
    let (m2, clk_sel4) = io.read_volatile 0x7e6e2310 m1 in
    let m3 = set_up io uart5_base (divisor clk_sel4) m2 in
    do
      m4 ← puts io uart5_base fuel (codes "\r\n=== uart5_bare AST1060 ===\r\n") m3
      m5 ← puts io uart5_base fuel (codes "SCU310=0x") m4
      m6 ← puts io uart5_base fuel (uart_hex32 clk_sel4) m5
      m7 ← puts io uart5_base fuel (codes " UART5_CLK=") m6
      m8 ←
          puts io uart5_base fuel
            (if bit_and (clk_sel4 / 2 ^ 4) 1 == 1 then codes "192M/13" else codes "24M/13") m7
      m9 ← puts io uart5_base fuel (codes " DIV=") m8
      m10 ← puts io uart5_base fuel (uart_hex32 (divisor clk_sel4)) m9
      m11 ← puts io uart5_base fuel (codes "\r\n") m10
      tick_hex io uart5_base n fuel 0 m11

-- `main` of spi_test, with `n` rounds of its loop.
unfoldable pub spi_test : {M : Type 0} → Registers M → ℕ → ℕ → M → Option M
spi_test io fuel n m =
    let m1 = set_up io uart12_base 1 m in
    do
      m2 ← puts io uart12_base fuel (codes "\r\n=== spi_test_bootmcu AST2700 ===\r\n") m1
      m3 ← puts io uart12_base fuel (codes "Embassy-aspeed BootMCU SPI boot OK!\r\n") m2
      m4 ← puts io uart12_base fuel (codes "TIMER_L=0x") m3
      let (m5, timer) = io.read_volatile 0x14c36000 m4
      m6 ← puts io uart12_base fuel (uart_hex32 timer) m5
      m7 ← puts io uart12_base fuel (codes "\r\n") m6
      tick_dec io uart12_base n fuel 0 m7
