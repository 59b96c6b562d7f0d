-- ===== src/Runtime.antt =====
-- The driver of the PFR machine (app-rot/src/runtime.rs) and the event loop of the AST1060 entry
-- point (app-rot/src/bin/rot_ast1060.rs), whose queue holds the records still to be processed.
pub mod Drive
pub mod Unprovisioned
pub mod Board
use mcu_runtime.Base.{
  ℕ, zero, suc, Bool, true, false, ◌≡◌, refl, ◌↔◌, ◌⊎◌, List, [], ◌∷◌, ◌++◌, arith, if◌then◌else◌,
}
use mcu_runtime.Pfr.{
  State, Event, boot, platform_held, verification_passed, verification_failed, release_complete,
  recovery_complete, Component, platform, EventRecord, new_record, Machine, new, Action, Transition,
  step_record, is_ignored,
}
use mathlib.Core.Option
use mathlib.Core.Option.{Option, some}

pub record Runtime : Type 0 where
  pub machine : Machine

unfoldable new_runtime : Runtime
unfolding new
new_runtime = record { machine = new }

unfoldable state : Runtime → State
state rt = rt.machine.state

unfoldable pub process : Runtime → EventRecord → Runtime × Transition
unfolding step_record
process rt r = let (m, t) = step_record rt.machine r in (record { machine = m }, t)

-- The match of `success_event`; `none` is the early return.
abbrev success_of : Action → Option Event
success_of Action.hold_platform = some platform_held
success_of Action.verify_images = some verification_passed
success_of Action.release_platform = some release_complete
success_of Action.recover_images = some recovery_complete
success_of Action.none = Option.none
success_of Action.start_monitoring = Option.none
success_of Action.lockdown = Option.none

unfoldable pub success_event : Action → Component → Option EventRecord
unfolding new_record
success_event a c = Option.map (λ e. new_record e c) (success_of a)

-- The variables of `main_task` that its loop carries: the driver, and the records that were sent
-- to `EVENTS` and not received yet, oldest first.
pub record MainTask : Type 0 where
  pub runtime : Runtime
  pub events : List EventRecord

abbrev event_queue_depth : ℕ
event_queue_depth = 8

-- `EVENTS.send`: the loop sends only after a receive, so a queue within its depth has room, unless
-- another task fills it in between, when the send waits; the list has no limit.
abbrev send : EventRecord → MainTask → MainTask
send r s = record s { events = s.events ++ (r ∷ []) }

abbrev send_some : Option EventRecord → MainTask → MainTask
send_some Option.none s = s
send_some (some r) s = send r s

-- The match of the loop on the action. `verified` is whether `verify_manifest_or_unprovisioned`
-- returned `Ok`; the other actions report success in every case.
abbrev act : Bool → Action → EventRecord → MainTask → MainTask
act false Action.verify_images r s = send (new_record verification_failed r.component) s
act _ a r s = send_some (success_event a r.component) s

-- `EVENTS.receive` and the rest of the round; with no record the task waits.
unfoldable pub receive : Bool → List EventRecord → MainTask → MainTask
unfolding process success_event new_record
receive verified [] s = s
receive verified (r ∷ rs) s =
    let (rt, t) = process s.runtime r in
    act verified t.action r (record { runtime = rt; events = rs })

-- One round of the loop.
unfoldable pub turn : Bool → MainTask → MainTask
unfolding receive
turn verified s = receive verified s.events s

-- `main_task` up to its loop, with the first record sent.
unfoldable pub start : EventRecord → Machine → MainTask
start r m = record { runtime = record { machine = m }; events = r ∷ [] }

unfoldable pub main_task : MainTask
unfolding start new new_record
main_task = start (new_record boot platform) new

unfoldable pub turns : Bool → ℕ → MainTask → MainTask
turns verified zero s = s
turns verified (suc n) s = turns verified n (turn verified s)
