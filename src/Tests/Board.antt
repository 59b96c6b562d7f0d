-- ===== src/Tests/Board.antt =====
-- The event loop with its platform at concrete values (app-rot/src/bin/rot_ast1060.rs).
use mcu_runtime.Base.{◌≡◌, refl, Bool, true, false, none, List, [], ◌∷◌, replicate, arith}
use mcu_runtime.Base.Digits.{bit}
use mcu_runtime.Pfr.{State, monitor, Event, platform, EventRecord, new_record}
use mcu_runtime.Filter.{unprovisioned_bypass}
use mcu_runtime.Filter.Apply.{apply_ast1060_spi_policy}
use mcu_runtime.Platform.Generic.{hold_bootmcu_in_reset}
use mcu_runtime.Platform.Generic.Mux.{IsOwned}
use mcu_runtime.Runtime.{main_task}
use mcu_runtime.Runtime.Board.{Board, BoardTask, board_turns}
use mcu_runtime.Runtime.Board.Held.{
  IsUnreleased, IsRunning, Unpassed, never_released, stays_released,
}
use mcu_runtime.Runtime.Board.Boots.{boots_released}

-- A board with the external reset at the level `extrst`.
abbrev board : Bool → Board
board extrst = record {
  platform = record {
    sgpo = λ pin. false;
    flash_power_l2 = true;
    flash_power_l3 = true;
    bmc_srst = extrst;
    bmc_extrst = extrst;
    first_release = true;
    scu_spim_mode_ctrl = 0xf000;
  };
  calls = [];
}

abbrev failing : List (Bool × List EventRecord)
failing = (false, []) ∷ (false, []) ∷ (false, new_record Event.reset_detected platform ∷ []) ∷ []

abbrev idle : BoardTask
idle = record { task = main_task; board = board false }

idle-IsUnreleased : IsUnreleased idle
unfolding main_task
idle-IsUnreleased = record { unpassed = (ground arith, tt); held = refl }

failing-Unpassed : Unpassed failing
unfolding new_record
failing-Unpassed = ((refl, tt), ((refl, tt), ((refl, (ground arith, tt)), tt)))

never_released_example : IsUnreleased (board_turns unprovisioned_bypass failing idle)
never_released_example =
    never_released unprovisioned_bypass failing idle idle-IsUnreleased failing-Unpassed

abbrev monitored : BoardTask
monitored = record {
  task = record {
    runtime = record { machine = record { state = State.monitor; recovery_reason = none } };
    events = [];
  };
  board = board true;
}

monitored-IsRunning : IsRunning monitored
monitored-IsRunning = record { begun = ground arith; up = (refl, refl) }

abbrev locking : List (Bool × List EventRecord)
locking = (false, new_record Event.recovery_failed platform ∷ []) ∷ (false, []) ∷ []

stays_released_example : IsRunning (board_turns unprovisioned_bypass locking monitored)
stays_released_example = stays_released unprovisioned_bypass locking monitored monitored-IsRunning

boots_released_example :
    let s =
      board_turns unprovisioned_bypass
        (replicate 4 (true, []))
        (record { task = main_task; board = board false }) in
    let held = hold_bootmcu_in_reset (board false).platform in
    (s.task.runtime.machine.state ≡ monitor)
    × (s.board.platform.bmc_extrst ≡ true)
    × (s.board.platform.bmc_srst ≡ true)
    × IsOwned false s.board.platform.scu_spim_mode_ctrl
    × (bit 5 s.board.platform.scu_spim_mode_ctrl ≡ 1)
    × (s.board.calls ≡ (apply_ast1060_spi_policy unprovisioned_bypass held.scu_spim_mode_ctrl).1)
boots_released_example =
    boots_released unprovisioned_bypass (board false) 5 (omega arith) (omega arith)
