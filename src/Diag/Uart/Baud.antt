-- ===== src/Diag/Uart/Baud.antt =====
-- The divisor of UART5 (app-rot/src/bin/uart5_bare.rs and uart5_systick.rs).
use mcu_runtime.Base.{ℕ, ◌*◌, ◌/◌, ◌≤◌, ◌<◌, ◌^◌, bit_and, inl, inr, Bool-cases, ◌==◌, arith}
use mcu_runtime.Diag.Uart.{uart_clk, divisor}

-- For every value of SCU310 the divisor is not zero and fits the two registers, and the rate that
-- it gives is 115200 baud up to a part in five hundred.
pub divisor-rate :
    (clk_sel4 : ℕ)
    → (0 < divisor clk_sel4)
      × (divisor clk_sel4 < 65536)
      × (uart_clk clk_sel4 / (16 * divisor clk_sel4) * 500 ≤ 115200 * 501)
      × (115200 * 499 ≤ uart_clk clk_sel4 / (16 * divisor clk_sel4) * 500)
unfolding divisor uart_clk
divisor-rate clk_sel4 = elim (Bool-cases (bit_and (clk_sel4 / 2 ^ 4) 1 == 1)) [
  | inl e ↦ rw e (omega arith, omega arith, omega arith, omega arith)
  | inr e ↦ rw e (omega arith, omega arith, omega arith, omega arith)
]
