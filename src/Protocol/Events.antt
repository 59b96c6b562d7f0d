-- ===== src/Protocol/Events.antt =====
-- What the protocol messages (app-rot/src/protocol/mod.rs) can make the PFR machine
-- (app-rot/src/pfr/mod.rs) do.
use mcu_runtime.Base.{◌≡◌, ◌⊎◌, arith}
use mcu_runtime.Pfr.{recover, Component, EventRecord, new_record, Machine, Action, step_record}
use mcu_runtime.Protocol.{
  ProtocolEvent, CheckpointEvent, UpdateIntent, to_event_record, checkpoint_event_record,
  intent_event, peer_component,
}
use mathlib.Core.Option.{some}

-- A record that some protocol message carries to the machine: of a mailbox command, of a
-- checkpoint, or of an update intent with the component of its peer.
pub data FromProtocol (r : EventRecord) : Type 0 where
  mailbox : (e : ProtocolEvent) → to_event_record e ≡ some r → FromProtocol r
  checkpoint : (e : CheckpointEvent) → checkpoint_event_record e ≡ some r → FromProtocol r
  intent :
      (u : UpdateIntent)
      → intent_event u ≡ some r.event
      → peer_component u.peer ≡ r.component
      → FromProtocol r

-- Whatever state the machine is in, Lockdown included, a record that a mailbox command, a checkpoint
-- or an update intent has become sends it to Recover with the action to recover the images, and the
-- record is about the BMC or the PCH.
pub protocol_recovers :
    (m : Machine) (r : EventRecord)
    → FromProtocol r
    → ((step_record m r).0.state ≡ recover)
      × ((step_record m r).1.action ≡ Action.recover_images)
      × ((r.component ≡ Component.bmc) ⊎ (r.component ≡ Component.pch))
unfolding step_record to_event_record checkpoint_event_record intent_event new_record
protocol_recovers m r (mailbox e h) = ground arith
protocol_recovers m r (checkpoint e h) = ground arith
protocol_recovers m r (intent u h c) = ground arith
