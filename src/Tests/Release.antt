-- ===== src/Tests/Release.antt =====
-- The sequencer of the DC-SCM platform and the SPI monitors at concrete values
-- (app-rot/src/platform/generic.rs, app-rot/src/filter.rs).
use mcu_runtime.Base.{
  ℕ, ◌/◌, ◌%◌, ◌≡◌, refl, ◌↔◌, true, false, any, some, List, [], ◌∷◌, ◌++◌, All, arith,
}
use mcu_runtime.Base.Digits.{bit}
use mcu_runtime.Manifest.{read_only, PlatformFirmwareManifest}
use mcu_runtime.Filter.{from_manifest}
use mcu_runtime.Filter.Pages.{IsProtected}
use mcu_runtime.Filter.Apply.{MonitorCall, set_filter_enable, apply_ast1060_spi_policy}
use mcu_runtime.Filter.Apply.Calls.{calls_of, switches, last_word}
use mcu_runtime.Filter.Apply.Armed.{applied_armed}
use mcu_runtime.Platform.Generic.{
  Ast1060DcscmPlatform, new, release_steps, hold_bootmcu_in_reset, release_bootmcu_from_reset,
}
use mcu_runtime.Platform.Generic.Sequence.{
  states, IsSafe, hold, release, run, release-IsSafe, srst_never_released,
}

abbrev board : Ast1060DcscmPlatform
board = new (λ pin. true) 0xf010

in_reset : board.bmc_extrst ≡ false
unfolding new
in_reset = refl

release-IsSafe_example : All IsSafe (states (release_steps board.first_release) board)
release-IsSafe_example = release-IsSafe board in_reset

-- The first release raises the standby reset, a second one does not.
released_once : (run (hold ∷ release ∷ []) board).bmc_srst ≡ true
unfolding new hold_bootmcu_in_reset release_bootmcu_from_reset
released_once = refl

srst_never_released_example : (run (release ∷ hold ∷ release ∷ []) board).bmc_srst ≡ false
srst_never_released_example = srst_never_released (release ∷ []) board

abbrev manifest : PlatformFirmwareManifest
manifest = record {
  version = 1;
  protected_regions = record { offset = 0x4000; size = 0x4001; permissions = read_only } ∷ [];
  images = [];
}

applied_armed_example :
    (front : List MonitorCall) × (word : ℕ) × (calls_of 3
        (apply_ast1060_spi_policy (from_manifest manifest) 0).1
      ≡ front ++ (set_filter_enable true ∷ []))
    × (any switches front ≡ false)
    × (last_word (2 / 32) front ≡ some word)
    × ((bit (2 % 32) word ≡ 1) ↔ IsProtected 2 manifest.protected_regions)
applied_armed_example = applied_armed manifest 3 0 2 (omega arith) (omega arith) (omega arith)
