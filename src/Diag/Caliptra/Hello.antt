-- ===== src/Diag/Caliptra/Hello.antt =====
-- The handshake with Caliptra (`main` of app-rot/src/bin/caliptra_hello_bootmcu.rs), up to its last
-- loop.
use mcu_runtime.Base.{ℕ, Bool, ◌||◌, not, if◌then◌else◌, ◌==◌, Result, ok, err}
use mcu_runtime.Base.Text.{codes}
use mcu_runtime.Bootmcu.Halt.{Boot, ◌>>=◌, ◌>>◌, pure, gets, modify}
use mcu_runtime.Diag.Print.{uart_hex32}
use mcu_runtime.Diag.Entropy.{timer_entropy}
use mcu_runtime.Diag.Caliptra.{Hal, print, print_if, halt, CptraError, err_str}
use mcu_runtime.Diag.Caliptra.Queries.{print_queries}

module _ {M : Type 0} (checks : Bool) (hal : Hal M) where
  unfoldable pub print_errors : ℕ × ℕ × ℕ × ℕ → Boot M (Unit {0})
  unfolding print
  print_errors (hw_fatal, hw_nf, fw_fatal, fw_nf) =
      if not (hw_fatal == 0) || not (hw_nf == 0) || not (fw_fatal == 0) || not (fw_nf == 0)
      then (do
        print hal (codes "ERRORS: hw_fatal=0x")
        print hal (uart_hex32 hw_fatal)
        print hal (codes " hw_nf=0x")
        print hal (uart_hex32 hw_nf)
        print hal (codes " fw_fatal=0x")
        print hal (uart_hex32 fw_fatal)
        print hal (codes " fw_nf=0x")
        print hal (uart_hex32 fw_nf)
        print hal (codes "\r\n"))
      else pure tt

  -- The state before the wait.
  unfoldable pub print_state : Boot M (Unit {0})
  unfolding print print_errors
  print_state = do
    flow ← gets hal.flow_status
    boot ← gets hal.boot_status
    errors ← gets hal.errors
    scu1_rdy ← gets hal.is_rdy_for_rt
    print hal (codes "FLOW_STS=0x")
    print hal (uart_hex32 flow)
    print hal (codes " [")
    print_if hal (hal.rdy_for_fuses flow) (codes "RDY_FUSES ")
    print_if hal (hal.rdy_for_fw flow) (codes "RDY_FW ")
    print_if hal (hal.rdy_for_rt flow) (codes "RDY_RT ")
    print hal (codes "]\r\n")
    print hal (codes "BOOT_STS=0x")
    print hal (uart_hex32 boot)
    print hal (codes " SCU1_RDY_RT=")
    print hal (if scu1_rdy then codes "1" else codes "0")
    print hal (codes "\r\n")
    print_errors errors

  -- The match on the wait: only `Ok` goes on.
  unfoldable pub waited : Result (Unit {0}) CptraError → Boot M (Unit {0})
  unfolding print err_str
  waited (ok _) = print hal (codes "Caliptra RDY_FOR_RT\r\n")
  waited (err (CptraError.hw_fatal code)) = do
    print hal (codes "HW_FATAL=0x")
    print hal (uart_hex32 code)
    print hal (codes " - Caliptra fatal error\r\n")
    halt
  waited (err CptraError.timeout) = do
    print hal (codes "Timeout waiting for RDY_FOR_RT\r\n")
    flow ← gets hal.flow_status
    print hal (codes "FLOW_STS=0x")
    print hal (uart_hex32 flow)
    print hal (codes "\r\n")
    halt
  waited (err e) = do
    print hal (codes "Error: ")
    print hal (err_str e)
    print hal (codes "\r\n")
    halt

  -- `main` up to its last loop.
  unfoldable pub caliptra_hello : Boot M (Unit {0})
  caliptra_hello = do
    modify hal.init
    modify hal.new_uart12
    print hal (codes "\r\n=== AST2700 BootMCU Caliptra ===\r\n")
    print_state
    print hal (codes "Waiting for RDY_FOR_RT (feeding TRNG)...\r\n")
    result ← hal.wait_rdy_for_rt_with_trng (timer_entropy checks hal.read_timer) 50000000
    waited result
    print_queries hal
