-- ===== src/Runtime/Drive.antt =====
-- How the event loop (app-rot/src/bin/rot_ast1060.rs) drives the machine through the records
-- that the driver (app-rot/src/runtime.rs) sends after each action.
use mcu_runtime.Base.{
  ℕ, zero, suc, ◌+◌, ◌*◌, ◌≤◌, Bool, true, false, ◌≡◌, refl, ◌⊎◌, List, [], ◌∷◌, length,
  length-append, ◌++◌, arith,
}
use mcu_runtime.Pfr.{
  monitor, lockdown, recover, verify, verification_failed, recovery_complete, platform, EventRecord,
  new_record, Machine, step_record, is_ignored,
}
use mcu_runtime.Runtime.{
  receive, Runtime, process, success_event, MainTask, turn, start, main_task, turns,
}
use mathlib.Core.Option.{some}

-- The record that the driver sends after an action is never ignored by the machine that
-- requested the action.
pub success_event_accepted :
    (rt : Runtime) (r next : EventRecord)
    → success_event (process rt r).1.action r.component ≡ some next
    → is_ignored (process (process rt r).0 next).1 ≡ false
unfolding process success_event is_ignored
success_event_accepted rt r next h = ground arith

length-push : (rs : List EventRecord) (r : EventRecord) → length (rs ++ (r ∷ [])) ≡ length rs + 1
length-push rs r = omega (arith, length-append rs (r ∷ []))

receive-le :
    (verified : Bool) (rs : List EventRecord) (s : MainTask)
    → s.events ≡ rs
    → length (receive verified rs s).events ≤ length rs
unfolding receive
receive-le verified [] s e = rw e (omega arith)
receive-le verified (r ∷ rs) s e = grind (arith, length-push)

-- A round of the loop never leaves more records in the queue than it found, so the task's own
-- sends never wait for room.
pub turn-le : (verified : Bool) (s : MainTask) → length (turn verified s).events ≤ length s.events
unfolding turn
turn-le verified s = receive-le verified s.events s refl

-- From any machine and any record, with verification passing, four rounds empty the queue: the
-- record was ignored, or the platform is monitored, or the machine is locked down.
pub settles :
    (m : Machine) (r : EventRecord)
    → let s = turns true 4 (start r m) in
      (s.events ≡ [])
      × ((is_ignored (step_record m r).1 ≡ true)
          ⊎ (s.runtime.machine.state ≡ monitor)
          ⊎ (s.runtime.machine.state ≡ lockdown))
unfolding turns turn start is_ignored step_record
settles m r = ground arith

-- Verification has failed and the machine is still to hear of it.
abbrev pub IsVerifying : MainTask → Type 0
IsVerifying s =
    (s.runtime.machine.state ≡ verify) × (s.events ≡ new_record verification_failed platform ∷ [])

-- A recovery has been reported complete and the machine is still to hear of it.
abbrev pub IsRecovering : MainTask → Type 0
IsRecovering s =
    (s.runtime.machine.state ≡ recover) × (s.events ≡ new_record recovery_complete platform ∷ [])

turn-IsRecovering : (s : MainTask) → IsVerifying s → IsRecovering (turn false s)
unfolding turn new_record
turn-IsRecovering s h = ground arith

turn-IsVerifying : (s : MainTask) → IsRecovering s → IsVerifying (turn false s)
unfolding turn new_record
turn-IsVerifying s h = ground arith

-- Another round at the end of so many.
turns_last :
    (verified : Bool) (n : ℕ) (s : MainTask)
    → turns verified (suc n) s ≡ turn verified (turns verified n s)
unfolding turns
turns_last verified zero s = refl
turns_last verified (suc n) s = turns_last verified n (turn verified s)

pairs-IsVerifying : (n : ℕ) (s : MainTask) → IsVerifying s → IsVerifying (turns false (2 * n) s)
unfolding turns
pairs-IsVerifying zero s h = h
pairs-IsVerifying (suc n) s h =
    let more : 2 * suc n ≡ suc (suc (2 * n)) = omega arith in
    let again = turn-IsVerifying (turn false s) (turn-IsRecovering s h) in
    rw more (pairs-IsVerifying n (turn false (turn false s)) again)

second-IsVerifying : IsVerifying (turn false (turn false main_task))
unfolding turn main_task new_record
second-IsVerifying = ground arith

-- If verification fails every time and no other task sends a record, then from the second round on
-- the loop alternates, without end: behind every even number of rounds the machine is in Verify with
-- the failed verification to hear of, and behind the odd number that follows it is in Recover with
-- a complete recovery to hear of.
pub retries_forever :
    (n : ℕ)
    → IsVerifying (turns false (2 * suc n) main_task)
      × IsRecovering (turns false (suc (2 * suc n)) main_task)
unfolding turns
retries_forever n =
    let more : 2 * suc n ≡ suc (suc (2 * n)) = omega arith in
    let even : IsVerifying (turns false (2 * suc n) main_task) =
      rw more (pairs-IsVerifying n (turn false (turn false main_task)) second-IsVerifying) in
    (even, rw (turns_last false (2 * suc n) main_task) (turn-IsRecovering _ even))
