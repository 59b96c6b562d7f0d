-- ===== src/Platform.antt =====
-- The platform layer (app-rot/src/platform): the default policy here, the AST1060 flash and crypto
-- backends in `Ast1060`, the board sequencer in `Generic`.
pub mod Ast1060
pub mod Generic
use mcu_runtime.Base.{ℕ, Bool, leb}
use mcu_runtime.Flash.{RecoveryLevel, max_level}
use mcu_runtime.Protocol.{SecureState, unprovisioned}

-- `DefaultPolicy`, with the derived order of `RecoveryLevel`.
unfoldable pub accepts_svn : ℕ → ℕ → Bool
accepts_svn svn minimum_svn = leb minimum_svn svn

unfoldable pub accepts_recovery_level : RecoveryLevel → Bool
accepts_recovery_level level = leb level.level max_level.level

unfoldable pub current_secure_state : SecureState
current_secure_state = unprovisioned

pub data PlatformCommand : Type 0 where
  hold_targets_in_reset release_spi_passthrough program_spi_filter : PlatformCommand
  release_targets_from_reset start_watchdog stop_watchdog : PlatformCommand
  trigger_recovery enter_lockdown : PlatformCommand
