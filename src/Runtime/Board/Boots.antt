-- ===== src/Runtime/Board/Boots.antt =====
-- The boot of the platform behind a passed verification (app-rot/src/bin/rot_ast1060.rs).
use mcu_runtime.Base.{
  ℕ, ◌≤◌, ◌≡◌, refl, ◌∙◌, inl, true, false, leb, ◌&&◌, ◌||◌, [], ◌++◌, replicate, arith,
}
use mcu_runtime.Base.Digits.{bit}
use mcu_runtime.Pfr.{monitor, Action}
use mcu_runtime.Filter.{SpiFilterPolicy}
use mcu_runtime.Filter.Apply.{apply_ast1060_spi_policy}
use mcu_runtime.Filter.Apply.Armed.{applied_scu}
use mcu_runtime.Platform.Generic.{hold_bootmcu_in_reset}
use mcu_runtime.Platform.Generic.Mux.{IsOwned}
use mcu_runtime.Platform.Generic.Sequence.{hold-first, sequence_lem}
use mcu_runtime.Runtime.{turn, main_task}
use mcu_runtime.Runtime.Board.{
  Board, perform, perform_next, apply_spi_filter_policy, board_turn, board_turns,
}

-- What the four rounds do to the board.
abbrev booted : SpiFilterPolicy → Board → Board
booted policy b = perform policy Action.release_platform (perform policy Action.hold_platform b)

four_rounds :
    (policy : SpiFilterPolicy) (b : Board)
    → let s =
        board_turns policy (replicate 4 (true, [])) (record { task = main_task; board = b }) in
      (s.task.runtime.machine.state ≡ monitor) × (s.board ≡ booted policy b)
unfolding board_turns board_turn turn perform_next main_task perform
four_rounds policy b = (refl, refl)

-- With verification passing and no record from another task, whatever the board was like before,
-- after the first four rounds the target is monitored and out of its external reset, and out of its
-- standby reset exactly if the platform had not released it before; its four flashes are connected to
-- it through the monitors, and the monitors have been told the policy.
pub boots_released :
    (policy : SpiFilterPolicy) (b : Board) (k : ℕ)
    → 4 ≤ k
    → k ≤ 11
    → let s =
        board_turns policy (replicate 4 (true, [])) (record { task = main_task; board = b }) in
      let held = hold_bootmcu_in_reset b.platform in
      (s.task.runtime.machine.state ≡ monitor)
      × (s.board.platform.bmc_extrst ≡ true)
      × (s.board.platform.bmc_srst ≡ b.platform.first_release)
      × IsOwned false s.board.platform.scu_spim_mode_ctrl
      × (bit k s.board.platform.scu_spim_mode_ctrl ≡ 1)
      × (s.board.calls ≡ b.calls ++ (apply_ast1060_spi_policy policy held.scu_spim_mode_ctrl).1)
unfolding perform apply_spi_filter_policy
boots_released policy b k l u =
    let (state, same) = four_rounds policy b in
    let held = hold_bootmcu_in_reset b.platform in
    let applied = (apply_spi_filter_policy policy (record b { platform = held })).platform in
    let (h, (out, srst, owned, kept)) = sequence_lem applied k (inl (omega arith)) (omega arith) in
    let (first, low) = hold-first b.platform in
    let standby : (applied.first_release || applied.bmc_srst) ≡ b.platform.first_release =
      ground (arith, first, low) in
    let inside : (leb 4 k && leb k 11) ≡ true = ground arith in
    let routed = applied_scu policy held.scu_spim_mode_ctrl k (omega arith) ∙ rw inside refl in
    (
      state,
      rw same out,
      rw same (srst ∙ standby),
      rw same owned,
      rw same (kept ∙ routed),
      rw same refl,
    )
