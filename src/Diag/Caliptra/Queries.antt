-- ===== src/Diag/Caliptra/Queries.antt =====
-- The queries to Caliptra and what they print (app-rot/src/bin/caliptra_hello_bootmcu.rs).
use mcu_runtime.Base.{Result, ok, err}
use mcu_runtime.Base.Text.{codes}
use mcu_runtime.Bootmcu.Halt.{Boot, ◌>>=◌, ◌>>◌, call}
use mcu_runtime.Diag.Print.{uart_hex32}
use mcu_runtime.Diag.Caliptra.{
  Hal, print, CptraError, FwInfo, Capabilities, FipsVersion, err_str, shown_name, hex_bytes,
  hex_words,
}

module _ {M : Type 0} (hal : Hal M) where
  -- What each query prints; an error is printed and goes on.
  unfoldable pub print_error : CptraError → Boot M (Unit {0})
  unfolding print err_str
  print_error e = do print hal (codes "  ERROR: "); print hal (err_str e); print hal (codes "\r\n")

  unfoldable pub print_fw_info : Result FwInfo CptraError → Boot M (Unit {0})
  unfolding print print_error
  print_fw_info (err e) = print_error e
  print_fw_info (ok info) = do
    print hal (codes "  fips_status:      0x")
    print hal (uart_hex32 info.fips_status)
    print hal (codes "\r\n  pl0_pauser:       0x")
    print hal (uart_hex32 info.pl0_pauser)
    print hal (codes "\r\n  runtime_svn:      0x")
    print hal (uart_hex32 info.runtime_svn)
    print hal (codes "\r\n  min_runtime_svn:  0x")
    print hal (uart_hex32 info.min_runtime_svn)
    print hal (codes "\r\n  fmc_manifest_svn: 0x")
    print hal (uart_hex32 info.fmc_manifest_svn)
    print hal (codes "\r\n  rom_rev: ")
    print hal (hex_bytes info.rom_revision)
    print hal (codes "\r\n  fmc_rev: ")
    print hal (hex_bytes info.fmc_revision)
    print hal (codes "\r\n  rt_rev:  ")
    print hal (hex_bytes info.runtime_revision)
    print hal (codes "\r\n")

  unfoldable pub print_capabilities : Result Capabilities CptraError → Boot M (Unit {0})
  unfolding print print_error
  print_capabilities (err e) = print_error e
  print_capabilities (ok cap) = do
    print hal (codes "  fips_status: 0x")
    print hal (uart_hex32 cap.fips_status)
    print hal (codes "\r\n  caps: 0x")
    print hal (hex_bytes cap.capabilities)
    print hal (codes "\r\n")

  unfoldable pub print_fips_version : Result FipsVersion CptraError → Boot M (Unit {0})
  unfolding print print_error shown_name
  print_fips_version (err e) = print_error e
  print_fips_version (ok ver) = do
    print hal (codes "  fips_status: 0x")
    print hal (uart_hex32 ver.fips_status)
    print hal (codes "\r\n  mode:  0x")
    print hal (uart_hex32 ver.mode)
    print hal (codes "\r\n  name:  \"")
    print hal (shown_name ver.name)
    print hal (codes "\"\r\n  rev:   ")
    print hal (hex_words ver.fips_rev)
    print hal (codes "\r\n")

  -- The three queries.
  unfoldable pub print_queries : Boot M (Unit {0})
  print_queries = do
    print hal (codes "\r\n--- FW_INFO ---\r\n")
    info ← call hal.fw_info
    print_fw_info info
    print hal (codes "\r\n--- CAPABILITIES ---\r\n")
    cap ← call hal.capabilities
    print_capabilities cap
    print hal (codes "\r\n--- FIPS_VERSION ---\r\n")
    ver ← call hal.fips_version
    print_fips_version ver
    print hal (codes "\r\n=== Done ===\r\n")
