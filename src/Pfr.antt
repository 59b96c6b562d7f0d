-- ===== src/Pfr.antt =====
-- The PFR state machine (app-rot/src/pfr/mod.rs): its states, events and actions, and the one
-- function that processes an event. The Rust match is the clauses of `transition`, in its order.
pub mod Lifecycle
pub mod Lockdown
use mcu_runtime.Base.{ℕ, Bool, true, false, ◌&&◌, if◌then◌else◌, List, [], ◌∷◌}
use mathlib.Core.Option
use mathlib.Core.Option.{Option}

pub data State : Type 0 where
  init t_minus1 verify release monitor recover lockdown : State

pub data Event : Type 0 where
  boot platform_held verification_passed verification_failed release_complete : Event
  reset_detected watchdog_timeout recovery_complete recovery_failed : Event

pub data Component : Type 0 where
  platform bmc pch cpld afm : Component

pub record EventRecord : Type 0 where
  pub event : Event
  pub component : Component
  pub code : ℕ

-- `EventRecord::new`, which `event_for` calls, and `EventRecord::with_code`.
unfoldable pub new_record : Event → Component → EventRecord
new_record e c = record { event = e; component = c; code = 0 }

unfoldable with_code : Event → Component → ℕ → EventRecord
with_code e c k = record { event = e; component = c; code = k }

unfoldable event_for : Event → Component → EventRecord
unfolding new_record
event_for e c = new_record e c

pub data RecoveryReason : Type 0 where
  verification_failed reset_detected watchdog_timeout recovery_failed : RecoveryReason

pub data Action : Type 0 where
  none hold_platform verify_images release_platform start_monitoring : Action
  recover_images lockdown : Action

pub data EventDisposition : Type 0 where
  transitioned ignored : EventDisposition

pub record Transition : Type 0 where
  pub state : State
  pub action : Action
  pub disposition : EventDisposition

pub record Machine : Type 0 where
  pub state : State
  pub recovery_reason : Option RecoveryReason

unfoldable pub is_ignored : Transition → Bool
is_ignored t = elim (t.disposition) [ ignored ↦ true | transitioned ↦ false ]

unfoldable pub needs_action : Transition → Bool
needs_action t = elim (t.action) [ none ↦ false | _ ↦ true ]

-- `Machine::new`.
unfoldable pub new : Machine
new = record { state = init; recovery_reason = Option.none }

abbrev is_lockdown : State → Bool
is_lockdown lockdown = true
is_lockdown _ = false

unfoldable pub is_locked_down : Machine → Bool
is_locked_down m = is_lockdown m.state

unfoldable enter_recovery : Machine → RecoveryReason → Machine × Action
enter_recovery m r = (record m { recovery_reason = Option.some r; state = recover }, recover_images)

-- The match of `step_record` on the state and the event.
unfoldable transition : State → Event → Machine → Machine × Action
unfolding enter_recovery
transition init boot m = (record m { state = t_minus1 }, hold_platform)
transition t_minus1 platform_held m = (record m { state = verify }, verify_images)
transition verify verification_passed m = (record m { state = release }, release_platform)
transition release release_complete m = (record m { state = monitor }, start_monitoring)
transition recover recovery_complete m =
    (record m { recovery_reason = Option.none; state = verify }, verify_images)
transition _ recovery_failed m =
    (record m { recovery_reason = Option.some recovery_failed; state = lockdown }, lockdown)
transition _ verification_failed m = enter_recovery m verification_failed
transition _ reset_detected m = enter_recovery m reset_detected
transition _ watchdog_timeout m = enter_recovery m watchdog_timeout
transition _ _ m = (m, none)

-- The derived `PartialEq` of `State`.
abbrev same_state : State → State → Bool
same_state init init = true
same_state t_minus1 t_minus1 = true
same_state verify verify = true
same_state release release = true
same_state monitor monitor = true
same_state recover recover = true
same_state lockdown lockdown = true
same_state _ _ = false

abbrev is_no_action : Action → Bool
is_no_action none = true
is_no_action _ = false

unfoldable disposition : State → State → Action → EventDisposition
disposition previous current action =
    if same_state current previous && is_no_action action then ignored else transitioned

-- `step_record`: the machine after the event, and the transition that is returned.
unfoldable pub step_record : Machine → EventRecord → Machine × Transition
unfolding transition disposition
step_record m r =
    let (m', action) = transition m.state r.event m in
    (
      m',
      record {
        state = m'.state;
        action = action;
        disposition = disposition m.state m'.state action;
      },
    )

unfoldable step : Machine → Event → Machine × State
unfolding step_record new_record
step m e = let (m', t) = step_record m (new_record e platform) in (m', t.state)

unfoldable step_with_action : Machine → Event → Machine × Transition
unfolding step_record new_record
step_with_action m e = step_record m (new_record e platform)

-- A run of the machine over the records that its queue hands it.
unfoldable pub run : Machine → List EventRecord → Machine
run m [] = m
run m (r ∷ rs) = run (step_record m r).0 rs
