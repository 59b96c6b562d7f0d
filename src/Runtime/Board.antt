-- ===== src/Runtime/Board.antt =====
-- The event loop with the platform that it drives (app-rot/src/bin/rot_ast1060.rs): the actions that
-- hold and release the AST2700, and the records that other tasks send.
pub mod Held
pub mod Boots
use mcu_runtime.Base.{ℕ, Bool, List, [], ◌∷◌, ◌++◌}
use mcu_runtime.Pfr.{EventRecord, Action, Machine}
use mcu_runtime.Filter.{SpiFilterPolicy}
use mcu_runtime.Filter.Apply.{Call, apply_ast1060_spi_policy}
use mcu_runtime.Platform.Generic.{
  Ast1060DcscmPlatform, hold_bootmcu_in_reset, release_bootmcu_from_reset,
}
use mcu_runtime.Runtime.{Runtime, process, MainTask, turn}

-- The platform, and what the SPI monitors have been told. The sequencer and the monitors share the
-- mode control register of the SCU.
pub record Board : Type 0 where
  pub platform : Ast1060DcscmPlatform
  pub calls : List Call

unfoldable pub apply_spi_filter_policy : SpiFilterPolicy → Board → Board
apply_spi_filter_policy policy b =
    let (scu, calls) = apply_ast1060_spi_policy policy b.platform.scu_spim_mode_ctrl in
    record { platform = record b.platform { scu_spim_mode_ctrl = scu }; calls = b.calls ++ calls }

-- The arms of the match on the action that reach the platform.
unfoldable pub perform : SpiFilterPolicy → Action → Board → Board
perform policy Action.hold_platform b = record b { platform = hold_bootmcu_in_reset b.platform }
perform policy Action.release_platform b =
    let b' = apply_spi_filter_policy policy b in
    record b' { platform = release_bootmcu_from_reset b'.platform }
perform policy _ b = b

-- The action for the record that is received, if there is one.
unfoldable pub perform_next : SpiFilterPolicy → Runtime → List EventRecord → Board → Board
unfolding process
perform_next policy rt [] b = b
perform_next policy rt (r ∷ rs) b = perform policy (process rt r).1.action b

pub record BoardTask : Type 0 where
  pub task : MainTask
  pub board : Board

-- `EVENTS.send` by other tasks.
abbrev pub send_all : List EventRecord → MainTask → MainTask
send_all rs s = record s { events = s.events ++ rs }

-- A round of the loop, behind the records that other tasks have sent.
unfoldable pub board_turn : SpiFilterPolicy → Bool × List EventRecord → BoardTask → BoardTask
unfolding perform_next turn
board_turn policy (verified, sent) s =
    let task = send_all sent s.task in
    record {
      task = turn verified task;
      board = perform_next policy task.runtime task.events s.board;
    }

unfoldable pub board_turns :
    SpiFilterPolicy → List (Bool × List EventRecord) → BoardTask → BoardTask
board_turns policy [] s = s
board_turns policy (i ∷ inputs) s = board_turns policy inputs (board_turn policy i s)
