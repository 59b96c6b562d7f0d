-- ===== src/Diag/Caliptra.antt =====
-- The handshake with Caliptra (app-rot/src/bin/caliptra_hello_bootmcu.rs), up to its last loop. A
-- panic in `timer_entropy` and `loop {}` are no result.
pub mod Queries
pub mod Hello
pub mod Report
pub mod Name
use mcu_runtime.Base.{
  ℕ, zero, suc, ◌/◌, ◌^◌, Bool, true, false, ◌||◌, not, if◌then◌else◌, ◌==◌, Option, none, some,
  List, [], ◌∷◌, ◌++◌, take, Result, ok, err,
}
use mcu_runtime.Base.Text.{codes}
use mcu_runtime.Bootmcu.Halt.{Boot, ◌>>=◌, ◌>>◌, pure, gets, modify, call}
use mcu_runtime.Diag.Print.{uart_hex32, write_hex_byte}

pub data CptraError : Type 0 where
  mbox_busy not_ready cmd_failed timeout : CptraError
  hw_fatal : ℕ → CptraError

pub record FwInfo : Type 0 where
  pub fips_status : ℕ
  pub pl0_pauser : ℕ
  pub runtime_svn : ℕ
  pub min_runtime_svn : ℕ
  pub fmc_manifest_svn : ℕ
  pub rom_revision : List ℕ
  pub fmc_revision : List ℕ
  pub runtime_revision : List ℕ

pub record Capabilities : Type 0 where
  pub fips_status : ℕ
  pub capabilities : List ℕ

pub record FipsVersion : Type 0 where
  pub fips_status : ℕ
  pub mode : ℕ
  pub name : List ℕ
  pub fips_rev : List ℕ

-- The calls into the hardware abstraction layer, which are parameters.
pub record Hal (M : Type 0) : Type 0 where
  pub init : M → M
  pub new_uart12 : M → M
  pub blocking_write : List ℕ → M → M
  pub read_timer : M → M × ℕ
  pub flow_status : M → ℕ
  pub boot_status : M → ℕ
  pub rdy_for_fuses : ℕ → Bool
  pub rdy_for_fw : ℕ → Bool
  pub rdy_for_rt : ℕ → Bool
  pub is_rdy_for_rt : M → Bool
  pub errors : M → ℕ × ℕ × ℕ × ℕ
  -- `wait_rdy_for_rt_with_trng`, which calls the entropy that it is given.
  pub wait_rdy_for_rt_with_trng :
      (M → M × Option (List ℕ)) → ℕ → M → M × Option (Result (Unit {0}) CptraError)
  pub fw_info : M → M × Result FwInfo CptraError
  pub capabilities : M → M × Result Capabilities CptraError
  pub fips_version : M → M × Result FipsVersion CptraError

unfoldable pub err_str : CptraError → List ℕ
err_str CptraError.mbox_busy = codes "MboxBusy"
err_str CptraError.not_ready = codes "NotReady"
err_str CptraError.cmd_failed = codes "CmdFailed"
err_str CptraError.timeout = codes "Timeout"
err_str (CptraError.hw_fatal _) = codes "HwFatal"

-- `name.iter().position(|&b| b == 0)`, from index `i` on.
unfoldable pub position_zero : ℕ → List ℕ → Option ℕ
position_zero i [] = none
position_zero i (b ∷ bs) = let rest = position_zero (suc i) bs in if b == 0 then some i else rest

-- `Option::unwrap_or`.
abbrev pub unwrap_or : Option ℕ → ℕ → ℕ
unwrap_or none d = d
unwrap_or (some k) d = k

-- `&ver.name[..end]`.
unfoldable pub shown_name : List ℕ → List ℕ
unfolding position_zero
shown_name name = take (unwrap_or (position_zero 0 name) 12) name

abbrev pub hex_bytes : List ℕ → List ℕ
hex_bytes [] = []
hex_bytes (b ∷ bs) = write_hex_byte b ++ hex_bytes bs

abbrev pub hex_words : List ℕ → List ℕ
hex_words [] = []
hex_words (r ∷ rs) = uart_hex32 r ++ (codes " " ++ hex_words rs)

-- `loop {}`.
abbrev pub halt : {M A : Type 0} → Boot M A
halt m = (m, none)

module _ {M : Type 0} (hal : Hal M) where
  unfoldable pub print : List ℕ → Boot M (Unit {0})
  print s = modify (hal.blocking_write s)

  abbrev pub print_if : Bool → List ℕ → Boot M (Unit {0})
  print_if b s = modify (λ m. if b then hal.blocking_write s m else m)
