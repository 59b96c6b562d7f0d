-- ===== src/Runtime/Board/Held.antt =====
-- When the AST2700 is held in reset (app-rot/src/bin/rot_ast1060.rs).
use mcu_runtime.Base.{◌≡◌, ◌≢◌, refl, inl, Bool, true, false, List, [], ◌∷◌, ◌++◌, All, arith}
use mcu_runtime.Pfr.{
  init, Event, verification_passed, verification_failed, platform_held, release_complete,
  recovery_complete, EventRecord, new_record, Machine, Action, step_record,
}
use mcu_runtime.Filter.{SpiFilterPolicy}
use mcu_runtime.Platform.Generic.{
  Ast1060DcscmPlatform, hold_bootmcu_in_reset, release_bootmcu_from_reset,
}
use mcu_runtime.Platform.Generic.Sequence.{sequence_lem}
use mcu_runtime.Runtime.{act, process, success_event, MainTask, receive, turn}
use mcu_runtime.Runtime.Board.{
  Board, BoardTask, perform, perform_next, apply_spi_filter_policy, board_turn, board_turns,
}

-- No record of a passed verification.
abbrev pub IsUnpassed : List EventRecord → Type 0
IsUnpassed rs = All (λ r. r.event ≢ verification_passed) rs

append-IsUnpassed :
    (rs more : List EventRecord) → IsUnpassed rs → IsUnpassed more → IsUnpassed (rs ++ more)
append-IsUnpassed [] more a b = b
append-IsUnpassed (r ∷ rs) more (p, a) b = (p, append-IsUnpassed rs more a b)

extrst_held : (p : Ast1060DcscmPlatform) → (hold_bootmcu_in_reset p).bmc_extrst ≡ false
extrst_held p = (sequence_lem p 0 (inl (omega arith)) (omega arith)).0.0

-- The target is in neither of its resets.
abbrev pub IsUp : Ast1060DcscmPlatform → Type 0
IsUp p = (p.bmc_extrst ≡ true) × (p.bmc_srst ≡ true)

release-IsUp : (p : Ast1060DcscmPlatform) → p.bmc_srst ≡ true → IsUp (release_bootmcu_from_reset p)
release-IsUp p h =
    let (held, (out, srst, owned, kept)) = sequence_lem p 0 (inl (omega arith)) (omega arith) in
    (out, ground (arith, srst))

-- Only a release takes the target out of its external reset; only a hold puts it into a reset.
perform-held :
    (policy : SpiFilterPolicy) (a : Action) (b : Board)
    → a ≢ Action.release_platform
    → b.platform.bmc_extrst ≡ false
    → (perform policy a b).platform.bmc_extrst ≡ false
unfolding perform
perform-held policy Action.none b n h = h
perform-held policy Action.hold_platform b n h = extrst_held b.platform
perform-held policy Action.verify_images b n h = h
perform-held policy Action.release_platform b n h = absurd (n refl)
perform-held policy Action.start_monitoring b n h = h
perform-held policy Action.recover_images b n h = h
perform-held policy Action.lockdown b n h = h

perform-IsUp :
    (policy : SpiFilterPolicy) (a : Action) (b : Board)
    → a ≢ Action.hold_platform
    → IsUp b.platform
    → IsUp (perform policy a b).platform
unfolding perform apply_spi_filter_policy
perform-IsUp policy Action.none b n h = h
perform-IsUp policy Action.hold_platform b n h = absurd (n refl)
perform-IsUp policy Action.verify_images b n h = h
perform-IsUp policy Action.release_platform b n h =
    release-IsUp (apply_spi_filter_policy policy b).platform h.1
perform-IsUp policy Action.start_monitoring b n h = h
perform-IsUp policy Action.recover_images b n h = h
perform-IsUp policy Action.lockdown b n h = h

passed_releases :
    (m : Machine) (r : EventRecord)
    → r.event ≢ verification_passed
    → (step_record m r).1.action ≢ Action.release_platform
unfolding step_record
passed_releases m r n = ground arith

begun_stays :
    (m : Machine) (r : EventRecord)
    → m.state ≢ init
    → ((step_record m r).0.state ≢ init) × ((step_record m r).1.action ≢ Action.hold_platform)
unfolding step_record
begun_stays m r n = ground arith

sent-IsUnpassed :
    (e : Event) (s : MainTask) (r : EventRecord)
    → e ≢ verification_passed
    → IsUnpassed s.events
    → IsUnpassed (s.events ++ (new_record e r.component ∷ []))
unfolding new_record
sent-IsUnpassed e s r n a = append-IsUnpassed s.events _ a (n, tt)

-- With verification failing, no action reports a passed verification.
act-IsUnpassed :
    (a : Action) (r : EventRecord) (s : MainTask)
    → IsUnpassed s.events
    → IsUnpassed (act false a r s).events
unfolding success_event
act-IsUnpassed Action.none r s u = u
act-IsUnpassed Action.hold_platform r s u = sent-IsUnpassed platform_held s r (ground arith) u
act-IsUnpassed Action.verify_images r s u = sent-IsUnpassed verification_failed s r (ground arith) u
act-IsUnpassed Action.release_platform r s u = sent-IsUnpassed release_complete s r (ground arith) u
act-IsUnpassed Action.start_monitoring r s u = u
act-IsUnpassed Action.recover_images r s u = sent-IsUnpassed recovery_complete s r (ground arith) u
act-IsUnpassed Action.lockdown r s u = u

-- No verification has passed: none is reported, and the target is in reset.
pub record IsUnreleased (s : BoardTask) : Type 0 where
  pub unpassed : IsUnpassed s.task.events
  pub held : s.board.platform.bmc_extrst ≡ false

round-IsUnreleased :
    (policy : SpiFilterPolicy) (rs : List EventRecord) (task : MainTask) (b : Board)
    → IsUnpassed rs
    → b.platform.bmc_extrst ≡ false
    → IsUnpassed (receive false rs (record task { events = rs })).events
      × ((perform_next policy task.runtime rs b).platform.bmc_extrst ≡ false)
unfolding receive perform_next process
round-IsUnreleased policy [] task b u h = (u, h)
round-IsUnreleased policy (r ∷ rs) task b (n, u) h =
    let (rt, t) = process task.runtime r in
    (
      act-IsUnpassed t.action r (record { runtime = rt; events = rs }) u,
      perform-held policy t.action b (passed_releases task.runtime.machine r n) h,
    )

-- The verification fails in every round, and no other task reports a passed one.
abbrev pub Unpassed : List (Bool × List EventRecord) → Type 0
Unpassed inputs = All (λ i. (i.0 ≡ false) × IsUnpassed i.1) inputs

-- As long as verification fails and no other task reports a passed one, whatever else the other
-- tasks send and however many rounds there are, a target in reset stays in reset.
pub never_released :
    (policy : SpiFilterPolicy) (inputs : List (Bool × List EventRecord)) (s : BoardTask)
    → IsUnreleased s
    → Unpassed inputs
    → IsUnreleased (board_turns policy inputs s)
unfolding board_turns
never_released policy [] s i u = i
never_released policy ((false, sent) ∷ inputs) s i ((e, n), u) =
    let events = s.task.events ++ sent in
    let unpassed = append-IsUnpassed s.task.events sent i.unpassed n in
    let (a, h) = round-IsUnreleased policy events s.task s.board unpassed i.held in
    never_released policy inputs (board_turn policy (false, sent) s)
      (unfold board_turn turn in record { unpassed = a; held = h }) u
never_released policy ((true, sent) ∷ inputs) s i ((e, n), u) = absurd (ground arith)

-- The machine has left Init, and the target is in neither of its resets.
pub record IsRunning (s : BoardTask) : Type 0 where
  pub begun : s.task.runtime.machine.state ≢ init
  pub up : IsUp s.board.platform

act-same :
    (verified : Bool) (a : Action) (r : EventRecord) (s : MainTask)
    → (act verified a r s).runtime ≡ s.runtime
unfolding success_event
act-same verified a r s = ground arith

round-IsRunning :
    (policy : SpiFilterPolicy) (verified : Bool) (rs : List EventRecord) (task : MainTask)
    (b : Board)
    → task.runtime.machine.state ≢ init
    → IsUp b.platform
    → ((receive verified rs (record task { events = rs })).runtime.machine.state ≢ init)
      × IsUp (perform_next policy task.runtime rs b).platform
unfolding receive perform_next process
round-IsRunning policy verified [] task b n h = (n, h)
round-IsRunning policy verified (r ∷ rs) task b n h =
    let (rt, t) = process task.runtime r in
    let (stays, action) = begun_stays task.runtime.machine r n in
    (
      rw (act-same verified t.action r (record { runtime = rt; events = rs })) stays,
      perform-IsUp policy t.action b action h,
    )

-- Once the machine has left Init and the target is in neither of its two resets, nothing that the
-- loop does puts it into one of them again, whatever records arrive and whatever verification
-- returns: not a recovery, and not lockdown. The machine does not return to Init.
pub stays_released :
    (policy : SpiFilterPolicy) (inputs : List (Bool × List EventRecord)) (s : BoardTask)
    → IsRunning s
    → IsRunning (board_turns policy inputs s)
unfolding board_turns
stays_released policy [] s i = i
stays_released policy ((verified, sent) ∷ inputs) s i =
    let events = s.task.events ++ sent in
    let (n, h) = round-IsRunning policy verified events s.task s.board i.begun i.up in
    stays_released policy inputs (board_turn policy (verified, sent) s)
      (unfold board_turn turn in record { begun = n; up = h })
