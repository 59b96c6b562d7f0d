-- ===== src/Pfr/Lifecycle.antt =====
-- The lifecycle of the PFR machine (app-rot/src/pfr/mod.rs): what holds in every state that a run
-- reaches, what an ignored event means, and what has to happen before the platform runs.
use mcu_runtime.Base.{Bool, true, false, ◌≡◌, refl, sym, ◌↔◌, ◌⊎◌, inl, inr, List, [], ◌∷◌, arith}
use mcu_runtime.Pfr.{
  State, verify, release, monitor, recover, lockdown, Event, verification_passed,
  verification_failed, release_complete, reset_detected, watchdog_timeout, recovery_failed,
  EventRecord, Machine, RecoveryReason, Action, new, step_record, run, is_ignored, needs_action,
}
use mathlib.Core.List.{Memᴰ, map}
use mathlib.Core.Option.{Option, some}

-- Whether the recorded reason fits the state: a recoverable reason in `recover`,
-- `recovery_failed` in `lockdown`, and none in any other state.
unfoldable pub reason_fits : State → Option RecoveryReason → Bool
reason_fits recover (some RecoveryReason.recovery_failed) = false
reason_fits recover (some _) = true
reason_fits recover Option.none = false
reason_fits lockdown (some RecoveryReason.recovery_failed) = true
reason_fits lockdown _ = false
reason_fits _ Option.none = true
reason_fits _ (some _) = false

abbrev pub Fits : Machine → Type 0
Fits m = reason_fits m.state m.recovery_reason ≡ true

step_record-Fits : (m : Machine) (r : EventRecord) → Fits m → Fits (step_record m r).0
unfolding step_record reason_fits
step_record-Fits m r h = ground arith

run-Fits : (m : Machine) (rs : List EventRecord) → Fits m → Fits (run m rs)
unfolding run
run-Fits m [] h = h
run-Fits m (r ∷ rs) h = run-Fits (step_record m r).0 rs (step_record-Fits m r h)

-- In every machine that is reached from `Machine::new`, by any records at all, the recorded
-- reason fits the state.
pub reached-Fits : (rs : List EventRecord) → Fits (run new rs)
unfolding new reason_fits
reached-Fits rs = run-Fits new rs refl

-- A transition is reported as ignored exactly when it requests no action, and exactly when it
-- requests none and the machine is unchanged.
pub ignored_lem :
    (m : Machine) (r : EventRecord)
    → let (m', t) = step_record m r in
      ((is_ignored t ≡ true) ↔ (needs_action t ≡ false))
      × ((is_ignored t ≡ true) ↔ ((needs_action t ≡ false) × (m' ≡ m)))
unfolding step_record is_ignored needs_action
ignored_lem m r = ground arith

-- `release_platform` is requested by `verification_passed` in `verify` and by nothing else,
-- `start_monitoring` by `release_complete` in `release` and by nothing else.
pub release_lem :
    (m : Machine) (r : EventRecord)
    → let (m', t) = step_record m r in
      ((t.action ≡ Action.release_platform)
        ↔ ((m.state ≡ verify) × (r.event ≡ verification_passed)))
      × ((t.action ≡ Action.start_monitoring)
          ↔ ((m.state ≡ release) × (r.event ≡ release_complete)))
unfolding step_record
release_lem m r = ground arith

abbrev pub is_released : State → Bool
is_released release = true
is_released monitor = true
is_released _ = false

release_step :
    (m : Machine) (r : EventRecord)
    → is_released m.state ≡ false
    → (r.event ≡ verification_passed) ⊎ (is_released (step_record m r).0.state ≡ false)
unfolding step_record
release_step m r h = ground arith

abbrev pub event_of : EventRecord → Event
event_of r = r.event

released_needs_pass :
    (m : Machine) (rs : List EventRecord)
    → is_released m.state ≡ false
    → is_released (run m rs).state ≡ true
    → Memᴰ verification_passed (map event_of rs)
unfolding run
released_needs_pass m [] h l = ground arith
released_needs_pass m (r ∷ rs) h l = elim (release_step m r h) [
  | inl p ↦ Memᴰ.head (sym p)
  | inr q ↦ Memᴰ.tail (released_needs_pass (step_record m r).0 rs q l)
]

abbrev pub is_failure : Event → Bool
is_failure verification_failed = true
is_failure reset_detected = true
is_failure watchdog_timeout = true
is_failure recovery_failed = true
is_failure _ = false

failure_step :
    (m : Machine) (r : EventRecord)
    → is_failure r.event ≡ true
    → is_released (step_record m r).0.state ≡ false
unfolding step_record
failure_step m r h = ground arith

-- After any failure event, in any machine, the platform is released again only if a
-- `verification_passed` follows that event.
pub released_after_failure :
    (m : Machine) (r : EventRecord) (rs : List EventRecord)
    → is_failure r.event ≡ true
    → is_released (run m (r ∷ rs)).state ≡ true
    → Memᴰ verification_passed (map event_of rs)
unfolding run
released_after_failure m r rs f l =
    released_needs_pass (step_record m r).0 rs (failure_step m r f) l
