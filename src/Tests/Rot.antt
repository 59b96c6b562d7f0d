-- ===== src/Tests/Rot.antt =====
-- Runs of the PFR machine, its driver and the protocol events (app-rot/src/pfr/mod.rs,
-- app-rot/src/runtime.rs, app-rot/src/protocol/mod.rs, app-rot/src/bin/rot_ast1060.rs).
use mcu_runtime.Base.{◌≡◌, refl, ◌⊎◌, true, false, List, [], ◌∷◌, arith}
use mcu_runtime.Pfr.{
  State, Event, Component, EventRecord, Machine, Action, RecoveryReason, new, step_record, run,
}
use mcu_runtime.Pfr.Lifecycle.{Fits, is_released, event_of, reached-Fits, released_after_failure}
use mcu_runtime.Pfr.Lockdown.{escape, lockdown_escapes}
use mcu_runtime.Runtime.{Runtime, process, success_event, main_task, turns}
use mcu_runtime.Runtime.Drive.{IsVerifying, IsRecovering, retries_forever}
use mcu_runtime.Protocol.{ProtocolEvent, MailboxPeer, MailboxCommand, UpdateIntent, CheckpointEvent}
use mcu_runtime.Protocol.Events.{FromProtocol, protocol_recovers}
use mathlib.Core.Option.{none, some}
use mathlib.Core.List.{Memᴰ, map}

abbrev on : Event → EventRecord
on e = record { event = e; component = Component.platform; code = 0 }

abbrev at : State → Machine
at s = record { state = s; recovery_reason = none }

abbrev locked : Machine
locked = record { state = State.lockdown; recovery_reason = some RecoveryReason.recovery_failed }

abbrev boot_to_monitor : List EventRecord
boot_to_monitor =
    on Event.boot
    ∷ on Event.platform_held
    ∷ on Event.verification_passed
    ∷ on Event.release_complete
    ∷ []

boots : (run new boot_to_monitor).state ≡ State.monitor
unfolding new run step_record
boots = refl

reached-Fits_example : Fits (run new (on Event.boot ∷ on Event.watchdog_timeout ∷ []))
reached-Fits_example = reached-Fits (on Event.boot ∷ on Event.watchdog_timeout ∷ [])

abbrev recovered : List EventRecord
recovered =
    on Event.recovery_complete ∷ on Event.verification_passed ∷ on Event.release_complete ∷ []

runs_again : is_released (run (at State.monitor) (on Event.reset_detected ∷ recovered)).state ≡ true
unfolding run step_record
runs_again = refl

released_after_failure_example : Memᴰ Event.verification_passed (map event_of recovered)
released_after_failure_example =
    released_after_failure (at State.monitor) (on Event.reset_detected) recovered refl runs_again

lockdown_escapes_example :
    ((step_record locked (on Event.watchdog_timeout)).0.state ≡ State.recover)
    × ((step_record locked (on Event.watchdog_timeout)).1.action ≡ Action.recover_images)
    × ((run locked (escape (on Event.watchdog_timeout))).state ≡ State.monitor)
lockdown_escapes_example =
    lockdown_escapes locked (on Event.watchdog_timeout) refl refl (λ e. absurd (ground arith))

abbrev monitoring : Runtime
monitoring = record { machine = at State.monitor }

abbrev after_reset : EventRecord
after_reset = on Event.recovery_complete

sent_after_reset :
    success_event (process monitoring (on Event.reset_detected)).1.action Component.platform
    ≡ some after_reset
unfolding process success_event
sent_after_reset = refl

retries_forever_example :
    IsVerifying (turns false 12 main_task) × IsRecovering (turns false 13 main_task)
retries_forever_example = retries_forever 5

abbrev intent : UpdateIntent
intent = record {
  peer = MailboxPeer.pch;
  update_active = true;
  update_recovery = false;
  update_staging = false;
  dynamic_at_reset = false;
}

abbrev intended : EventRecord
intended = record { event = Event.verification_failed; component = Component.pch; code = 0 }

intended-FromProtocol : FromProtocol intended
intended-FromProtocol =
    FromProtocol.intent intent (unfold mcu_runtime.Protocol.intent_event in refl) refl

protocol_recovers_example :
    ((step_record (at State.monitor) intended).0.state ≡ State.recover)
    × ((step_record (at State.monitor) intended).1.action ≡ Action.recover_images)
    × ((Component.pch ≡ Component.bmc) ⊎ (Component.pch ≡ Component.pch))
protocol_recovers_example = protocol_recovers (at State.monitor) intended intended-FromProtocol
