-- ===== src/Ipc/Encode/Bytes.antt =====
-- The bytes of an envelope in the wire format (ipc-proto/src/lib.rs), and how many there are.
use mcu_runtime.Base.{
  ℕ, ◌+◌, ◌≤◌, ◌<◌, ◌≡◌, Bool, true, false, List, [], ◌++◌, length, length-append, arith,
}
use mcu_runtime.Base.Words.{IsU32}
use mcu_runtime.Ipc.{RotStatus, Payload, Envelope}
use mcu_runtime.Ipc.Wire.Bytes.{
  varint, u32_bytes, bool_bytes, message_bytes, length-groups_le, groups_small,
}

abbrev pub rot_status_bytes : RotStatus → List ℕ
rot_status_bytes rs =
    u32_bytes 1 rs.silicon_rev
    ++ (u32_bytes 2 rs.caliptra_flow_status
        ++ (u32_bytes 3 rs.caliptra_boot_status
            ++ (bool_bytes 4 rs.secure_boot_enabled ++ bool_bytes 5 rs.caliptra_rt_ready)))

abbrev pub payload_bytes : Payload → List ℕ
payload_bytes Payload.none = []
payload_bytes (Payload.ping n) = message_bytes 2 (u32_bytes 1 n)
payload_bytes (Payload.pong n) = message_bytes 3 (u32_bytes 1 n)
payload_bytes Payload.get_rot_status = message_bytes 4 []
payload_bytes (Payload.rot_status rs) = message_bytes 5 (rot_status_bytes rs)

abbrev pub envelope_bytes : Envelope → List ℕ
envelope_bytes env = u32_bytes 1 env.seq ++ payload_bytes env.payload

-- Every field is a `u32`.
pub record IsStatus (rs : RotStatus) : Type 0 where
  pub silicon : IsU32 rs.silicon_rev
  pub flow : IsU32 rs.caliptra_flow_status
  pub boot : IsU32 rs.caliptra_boot_status

abbrev pub IsPayload : Payload → Type 0
IsPayload Payload.none = Unit {0}
IsPayload Payload.get_rot_status = Unit {0}
IsPayload (Payload.ping n) = IsU32 n
IsPayload (Payload.pong n) = IsU32 n
IsPayload (Payload.rot_status rs) = IsStatus rs

pub record IsEnvelope (env : Envelope) : Type 0 where
  pub seq : IsU32 env.seq
  pub payload : IsPayload env.payload

-- A varint of a `u32` has at most five bytes.
length-varint : (v : ℕ) → IsU32 v → length (varint v) ≤ 5
length-varint v h = length-groups_le 9 4 v (omega arith)

pub length-u32_bytes : (field v : ℕ) → IsU32 v → length (u32_bytes field v) ≤ 6
length-u32_bytes field v h = ground (arith, length-varint v h)

length-bool_bytes : (field : ℕ) (v : Bool) → length (bool_bytes field v) ≤ 2
length-bool_bytes field false = omega arith
length-bool_bytes field true = rw (groups_small 9 1 (omega arith)) (omega arith)

pub length-rot_status_bytes : (rs : RotStatus) → IsStatus rs → length (rot_status_bytes rs) ≤ 22
length-rot_status_bytes rs h =
    rw
      (
        length-append (u32_bytes 1 rs.silicon_rev) _,
        length-append (u32_bytes 2 rs.caliptra_flow_status) _,
        length-append (u32_bytes 3 rs.caliptra_boot_status) _,
        length-append (bool_bytes 4 rs.secure_boot_enabled) _,
      )
      (omega (
        arith,
        length-u32_bytes 1 _ h.silicon,
        length-u32_bytes 2 _ h.flow,
        length-u32_bytes 3 _ h.boot,
        length-bool_bytes 4 rs.secure_boot_enabled,
        length-bool_bytes 5 rs.caliptra_rt_ready,
      ))

-- A message with a body of less than 128 bytes adds two bytes to it.
length-message_bytes :
    (field : ℕ) (body : List ℕ)
    → length body < 128
    → length (message_bytes field body) ≡ length body + 2
length-message_bytes field body h = rw (groups_small 9 (length body) h) (omega arith)

-- The body of a payload, and the field that carries it.
length-payload_bytes : (p : Payload) → IsPayload p → length (payload_bytes p) ≤ 24
length-payload_bytes Payload.none h = omega arith
length-payload_bytes Payload.get_rot_status h =
    omega (arith, length-message_bytes 4 [] (omega arith))
length-payload_bytes (Payload.ping n) h =
    let p = length-u32_bytes 1 n h in
    omega (arith, length-message_bytes 2 (u32_bytes 1 n) (omega arith))
length-payload_bytes (Payload.pong n) h =
    let p = length-u32_bytes 1 n h in
    omega (arith, length-message_bytes 3 (u32_bytes 1 n) (omega arith))
length-payload_bytes (Payload.rot_status rs) h =
    let p = length-rot_status_bytes rs h in
    omega (arith, length-message_bytes 5 (rot_status_bytes rs) (omega arith))

-- An envelope has at most 30 bytes.
pub length-envelope_bytes : (env : Envelope) → IsEnvelope env → length (envelope_bytes env) ≤ 30
length-envelope_bytes env h =
    rw (length-append (u32_bytes 1 env.seq) (payload_bytes env.payload))
      (omega (arith, length-u32_bytes 1 env.seq h.seq, length-payload_bytes env.payload h.payload))
