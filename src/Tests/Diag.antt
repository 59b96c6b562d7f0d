-- ===== src/Tests/Diag.antt =====
-- Runs of the diagnostic programs (app-rot/src/bin) on small boards.
use mcu_runtime.Base.{
  ℕ, ◌+◌, ◌-◌, ◌%◌, ◌^◌, ◌≤◌, ◌<◌, ◌≡◌, refl, ◌↔◌, true, false, if◌then◌else◌, ◌==◌, some, List, [],
  ◌∷◌, ◌++◌, length, ok, arith,
}
use mcu_runtime.Base.Text.{codes}
use mcu_runtime.Diag.Print.{print_hex, fill_hex, hex_digit, uart_dec32, fill_dec}
use mcu_runtime.Diag.Print.Decimal.{parse_dec, parse-uart_dec32}
use mcu_runtime.Diag.Print.Counter.{
  format_tick, fill_tmp, copy_down, copy_from_slice, end_line, format_count, fill_while, reversed,
  count_digits,
}
use mcu_runtime.Diag.Memory.{walking_bit_test, write_bits, check_bits}
use mcu_runtime.Diag.Memory.Wired.{wired, IsCarried}
use mcu_runtime.Diag.Memory.Walking.{IsWalked}
use mcu_runtime.Diag.Decides.{ends, is_ok}
use mcu_runtime.Diag.Dram.{DeviceId, HwRev, DdrType, DramError, dram_base, patterns, dram_init}
use mcu_runtime.Diag.Dram.Tested.{board, IsTrained, dram_init_iff, dram_init-blind}
use mcu_runtime.Diag.Uart.{Registers, puts}
use mcu_runtime.Diag.Uart.Sent.{Serial, HasSent, puts-sends}
use mcu_runtime.Diag.Entropy.{timer_entropy, Entropy, timer_entropy-Entropy}

printed : print_hex 0xdeadbeef ≡ codes "deadbeef"
unfolding print_hex fill_hex hex_digit
printed = refl

largest : uart_dec32 4294967295 ≡ some (codes "4294967295")
unfolding uart_dec32 fill_dec
largest = refl

ticked : format_tick 120 ≡ some (codes "tick: 120\r\n")
unfolding format_tick fill_tmp copy_down copy_from_slice end_line
ticked = refl

counted : format_count 0 ≡ some (codes "count = 0\r\n")
unfolding format_count fill_while reversed count_digits copy_from_slice end_line
counted = refl

parse-uart_dec32_example :
    (out : List ℕ) × (uart_dec32 4294967295 ≡ some out)
    × (parse_dec out ≡ some 4294967295)
    × (length out ≤ 10)
parse-uart_dec32_example = parse-uart_dec32 4294967295 (omega arith)

-- A memory of which words 32 apart share a cell passes, one of which neighbours do does not.
far_apart : (walking_bit_test (wired (λ a. a % 128) (λ v. v)) 0 64 (λ c. 0)).1 ≡ true
unfolding walking_bit_test write_bits check_bits
far_apart = refl

neighbours : (walking_bit_test (wired (λ a. a % 4) (λ v. v)) 0 64 (λ c. 0)).1 ≡ false
unfolding walking_bit_test write_bits check_bits
neighbours = refl

abbrev rev : DeviceId × HwRev
rev = (DeviceId.ast2750, HwRev.a1)

-- Two gigabytes of which every address has its own cell.
dram_init_iff_example :
    (ends (dram_init (board (λ a. a) (λ v. v) (ok tt) (ok tt) rev DdrType.ddr4) ([], λ c. 0))
      ≡ true)
    ↔ IsTrained (λ a. a) (λ v. v) (ok tt) (ok tt) rev DdrType.ddr4
dram_init_iff_example =
    dram_init_iff (λ a. a) (λ v. v) (ok tt) (ok tt) rev DdrType.ddr4 ([], λ c. 0)

abbrev below_1g : ℕ → ℕ
below_1g a = a % 2 ^ 30

same_cell : (a : ℕ) → below_1g (a + 0x40000000) ≡ below_1g a
same_cell a = omega arith

dram_init-blind_example :
    (ends (dram_init (board below_1g (λ v. v) (ok tt) (ok tt) rev DdrType.ddr4) ([], λ c. 0))
      ≡ true)
    ↔ ((is_ok {E = DramError} (ok tt) ≡ true)
        × IsCarried below_1g (λ v. v) dram_base patterns
        × IsWalked below_1g (λ v. v) (dram_base + 0x1000) 256)
dram_init-blind_example =
    dram_init-blind below_1g (λ v. v) (ok tt) (ok tt) rev DdrType.ddr4 ([], λ c. 0) same_cell

-- A UART that is busy for three reads of its status behind each byte, and loses a byte that is
-- written before.
record Line : Type 0 where
  busy : ℕ
  sent : List ℕ

abbrev status : Line → Line × ℕ
status m = if m.busy == 0 then (m, 0x20) else (record m { busy = m.busy - 1 }, 0)

abbrev sends : ℕ → Line → Line
sends c m = if m.busy == 0 then record { busy = 3; sent = m.sent ++ (c ∷ []) } else m

abbrev io : Registers Line
io = record { read_volatile = λ reg m. status m; write_volatile = λ reg value m. sends value m }

line_serial : Serial io 0
line_serial = record {
  sent = λ m. m.sent;
  busy = λ m. m.busy;
  limit = 3;
  read_sent = λ m. ground arith;
  read_room = λ m e. ground (arith, e);
  read_busy = λ m d. ground (arith, d);
  write_sent = λ c m e. ground (arith, e);
  write_busy = λ c m e. ground (arith, e);
}

puts-sends_example :
    HasSent io 0 line_serial
      (puts io 0 4 (codes "tick ") (record { busy = 3; sent = [] }))
      (codes "tick ")
      (record { busy = 3; sent = [] })
unfolding line_serial
puts-sends_example =
    puts-sends io 0 line_serial 4 (codes "tick ") (record { busy = 3; sent = [] }) (omega arith)
      (omega arith)

counter_u32 : (m : ℕ) → m % 4294967296 < 4294967296
counter_u32 m = omega arith

timer_entropy-Entropy_example :
    Entropy true (timer_entropy true (λ (m : ℕ). (m + 1, m % 4294967296)) 7).1
timer_entropy-Entropy_example =
    timer_entropy-Entropy (λ (m : ℕ). (m + 1, m % 4294967296)) true 7 counter_u32
