-- ===== src/Diag/Counting.antt =====
-- The programs that count on a UART (app-rot/src/bin/hello_uart_bootmcu.rs and
-- hello_uart_ast1060.rs, app-coprocessor/ssp/src/bin/hello_uart.rs), for a number of rounds of their
-- loops. The second between two rounds is not modelled; a panic is none.
use mcu_runtime.Base.{
  ℕ, zero, suc, ◌+◌, ◌≡◌, refl, if◌then◌else◌, ltb, Option, none, some, ◌>>=◌, List, ◌++◌, arith,
}
use mcu_runtime.Base.Words.{IsU32, as_u32}
use mcu_runtime.Base.Text.{codes}
use mcu_runtime.Diag.Print.{uart_dec32}
use mcu_runtime.Diag.Print.Decimal.{parse-uart_dec32}
use mcu_runtime.Diag.Print.Counter.{format_tick, format_count}
use mcu_runtime.Diag.Print.Counter.Parsed.{format_tick-parse}

module _ {M : Type 0} (write : List ℕ → M → M) where
  -- The loop of hello_uart_bootmcu.
  unfoldable pub count_bootmcu : ℕ → ℕ → M → Option M
  count_bootmcu zero count m = some m
  count_bootmcu (suc n) count m = do
    digits ← uart_dec32 count
    count_bootmcu n (as_u32 (count + 1))
        (write (codes "\r\n") (write digits (write (codes "tick ") m)))

  -- The loop of hello_uart_ast1060.
  unfoldable pub count_ast1060 : ℕ → ℕ → M → Option M
  count_ast1060 zero counter m = some m
  count_ast1060 (suc n) counter m = do
    msg ← format_tick counter
    count_ast1060 n (as_u32 (counter + 1)) (write msg m)

  -- The loop of hello_uart on the SSP, where `counter += 1` panics behind the largest number if
  -- overflow is checked.
  unfoldable pub count_ssp : ℕ → ℕ → M → Option M
  count_ssp zero counter m = some m
  count_ssp (suc n) counter m = do
    msg ← format_count counter
    if ltb (counter + 1) 4294967296 then count_ssp n (counter + 1) (write msg m) else none

-- The counting goes on for any number of rounds, also where it starts again at 0.
module _ {M : Type 0} (write : List ℕ → M → M) where
  pub count_ast1060-goes :
      (n counter : ℕ) (m : M)
      → IsU32 counter
      → (m' : M) × (count_ast1060 write n counter m ≡ some m')
  unfolding count_ast1060
  count_ast1060-goes zero counter m h = (m, refl)
  count_ast1060-goes (suc n) counter m h =
      let (digits, ran, parsed) = format_tick-parse counter h in
      let line = (codes "tick: " ++ digits) ++ codes "\r\n" in
      let (m', rest) = count_ast1060-goes n (as_u32 (counter + 1)) (write line m) (omega arith) in
      (m', rw ran rest)

  pub count_bootmcu-goes :
      (n count : ℕ) (m : M) → IsU32 count → (m' : M) × (count_bootmcu write n count m ≡ some m')
  unfolding count_bootmcu
  count_bootmcu-goes zero count m h = (m, refl)
  count_bootmcu-goes (suc n) count m h =
      let (digits, ran, parsed, few) = parse-uart_dec32 count h in
      let m1 = write (codes "\r\n") (write digits (write (codes "tick ") m)) in
      let (m', rest) = count_bootmcu-goes n (as_u32 (count + 1)) m1 (omega arith) in
      (m', rw ran rest)
