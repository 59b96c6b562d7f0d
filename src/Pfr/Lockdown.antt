-- ===== src/Pfr/Lockdown.antt =====
-- Lockdown in the PFR machine (app-rot/src/pfr/mod.rs): how it is entered, and how it is left.
use mcu_runtime.Base.{◌≡◌, ◌↔◌, ◌⊎◌, true, false, List, [], ◌∷◌, arith}
use mcu_runtime.Pfr.{
  monitor, recover, lockdown, verification_passed, recovery_complete, recovery_failed,
  release_complete, EventRecord, Machine, platform, new_record, Action, step_record, run,
  is_locked_down,
}
use mcu_runtime.Pfr.Lifecycle.{is_failure}

-- The machine is locked down after an event exactly when the event is `recovery_failed`, in
-- any state, or when it was locked down and the event is no failure.
pub lockdown_lem :
    (m : Machine) (r : EventRecord)
    → (is_locked_down (step_record m r).0 ≡ true)
      ↔ ((r.event ≡ recovery_failed) ⊎ ((is_locked_down m ≡ true) × (is_failure r.event ≡ false)))
unfolding step_record is_locked_down
lockdown_lem m r = ground arith

-- The records by which a machine in lockdown comes to monitor the platform again.
abbrev pub escape : EventRecord → List EventRecord
escape r =
    r
    ∷ new_record recovery_complete platform
    ∷ new_record verification_passed platform
    ∷ new_record release_complete platform
    ∷ []

-- A machine in lockdown goes to `recover`, asking for the images to be recovered, at any failure
-- event other than `recovery_failed`, and from there the records of `escape` take it to `monitor`.
pub lockdown_escapes :
    (m : Machine) (r : EventRecord)
    → m.state ≡ lockdown
    → is_failure r.event ≡ true
    → ¬ (r.event ≡ recovery_failed)
    → ((step_record m r).0.state ≡ recover)
      × ((step_record m r).1.action ≡ Action.recover_images)
      × ((run m (escape r)).state ≡ monitor)
unfolding step_record run new_record
lockdown_escapes m r l f n = ground arith
