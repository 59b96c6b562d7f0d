-- ===== src/Ipc.antt =====
-- The inter-core IPC codec (ipc-proto/src/lib.rs): the messages here, varints and cursors in
-- `Wire`, the encoder in `Encode`, the decoder in `Decode`, and what joins them in `RoundTrip`.
pub mod Wire
pub mod Encode
pub mod Decode
pub mod RoundTrip
use mcu_runtime.Base.{ℕ, Bool, false}

-- Largest envelope that fits a 32-byte mailbox slot behind its length byte.
abbrev pub max_envelope_len : ℕ
max_envelope_len = 31

pub record RotStatus : Type 0 where
  pub silicon_rev : ℕ
  pub caliptra_flow_status : ℕ
  pub caliptra_boot_status : ℕ
  pub secure_boot_enabled : Bool
  pub caliptra_rt_ready : Bool

-- The derived `Default`.
abbrev pub default_status : RotStatus
default_status = record {
  silicon_rev = 0;
  caliptra_flow_status = 0;
  caliptra_boot_status = 0;
  secure_boot_enabled = false;
  caliptra_rt_ready = false;
}

pub data Payload : Type 0 where
  none get_rot_status : Payload
  ping pong : ℕ → Payload
  rot_status : RotStatus → Payload

pub record Envelope : Type 0 where
  pub seq : ℕ
  pub payload : Payload
