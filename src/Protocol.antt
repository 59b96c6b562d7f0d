-- ===== src/Protocol.antt =====
-- Mailbox, checkpoint and update-intent messages, and the records that they become for the PFR
-- machine (app-rot/src/protocol/mod.rs).
pub mod Events
use mcu_runtime.Base.{ℕ, Bool, true, false, ◌||◌, if◌then◌else◌}
use mcu_runtime.Pfr.{
  Event, reset_detected, watchdog_timeout, verification_failed, Component, EventRecord, new_record,
}
use mathlib.Core.Option
use mathlib.Core.Option.{Option, some}

pub data MailboxPeer : Type 0 where
  bmc pch : MailboxPeer

pub data MailboxCommand : Type 0 where
  none provision update_intent checkpoint reset_communication request_recovery : MailboxCommand

pub record ProtocolEvent : Type 0 where
  pub peer : MailboxPeer
  pub command : MailboxCommand
  pub arg : ℕ

unfoldable new : MailboxPeer → MailboxCommand → ProtocolEvent
new p c = record { peer = p; command = c; arg = 0 }

unfoldable with_arg : MailboxPeer → MailboxCommand → ℕ → ProtocolEvent
with_arg p c a = record { peer = p; command = c; arg = a }

-- The component of a mailbox peer: `pfr_component` of `ProtocolEvent` and of `UpdateIntent`.
abbrev pub peer_component : MailboxPeer → Component
peer_component bmc = Component.bmc
peer_component pch = Component.pch

-- `ProtocolEvent::to_pfr_event`.
abbrev command_event : MailboxCommand → Option Event
command_event request_recovery = some reset_detected
command_event reset_communication = some reset_detected
command_event _ = Option.none

unfoldable to_pfr_event : ProtocolEvent → Option Event
to_pfr_event e = command_event e.command

unfoldable pub to_event_record : ProtocolEvent → Option EventRecord
unfolding to_pfr_event new_record
to_event_record e = Option.map (λ v. new_record v (peer_component e.peer)) (to_pfr_event e)

pub data CheckpointKind : Type 0 where
  bmc acm bios : CheckpointKind

pub data CheckpointProgress : Type 0 where
  started paused resumed completed authentication_failed : CheckpointProgress

pub record CheckpointEvent : Type 0 where
  pub kind : CheckpointKind
  pub progress : CheckpointProgress

abbrev kind_component : CheckpointKind → Component
kind_component bmc = Component.bmc
kind_component acm = Component.pch
kind_component bios = Component.pch

-- `CheckpointEvent::to_pfr_event`.
abbrev progress_event : CheckpointProgress → Option Event
progress_event authentication_failed = some watchdog_timeout
progress_event _ = Option.none

unfoldable pub checkpoint_event_record : CheckpointEvent → Option EventRecord
unfolding new_record
checkpoint_event_record e =
    Option.map (λ v. new_record v (kind_component e.kind)) (progress_event e.progress)

pub record UpdateIntent : Type 0 where
  pub peer : MailboxPeer
  pub update_active : Bool
  pub update_recovery : Bool
  pub update_staging : Bool
  pub dynamic_at_reset : Bool

unfoldable new_intent : MailboxPeer → UpdateIntent
new_intent p = record {
  peer = p;
  update_active = false;
  update_recovery = false;
  update_staging = false;
  dynamic_at_reset = false;
}

unfoldable any_update : UpdateIntent → Bool
any_update u = u.update_active || u.update_recovery || u.update_staging

-- `UpdateIntent::to_pfr_event`.
unfoldable pub intent_event : UpdateIntent → Option Event
unfolding any_update
intent_event u = if any_update u then some verification_failed else Option.none

pub data SecureState : Type 0 where
  unprovisioned provisioned recovery lockdown : SecureState
