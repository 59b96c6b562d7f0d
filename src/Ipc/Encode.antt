-- ===== src/Ipc/Encode.antt =====
-- The encoder of the IPC codec (ipc-proto/src/lib.rs). `Some(pos)` comes with the buffer that was
-- written, as a cursor.
pub mod Bytes
pub mod Layout
use mcu_runtime.Base.{ℕ, Bool, true, false, Option, none, some, ◌>>=◌, List, [], take, replicate}
use mcu_runtime.Ipc.{RotStatus, Payload, Envelope}
use mcu_runtime.Ipc.Wire.{Cursor, and_then, put_u32, put_bool, put_submessage}

-- A buffer to be filled from its start.
abbrev pub start : List ℕ → Cursor
start buf = record { buf = buf; pos = 0 }

-- `if ok { Some(pos) } else { None }`.
abbrev pub require : Bool × Cursor → Option Cursor
require (true, c) = some c
require (false, c) = none

unfoldable pub put_rot_status : RotStatus → Cursor → Bool × Cursor
unfolding put_u32 put_bool
put_rot_status rs c = and_then (put_u32 c 1 rs.silicon_rev) λ c1.
    and_then (put_u32 c1 2 rs.caliptra_flow_status) λ c2.
      and_then (put_u32 c2 3 rs.caliptra_boot_status) λ c3.
        and_then (put_bool c3 4 rs.secure_boot_enabled) λ c4. put_bool c4 5 rs.caliptra_rt_ready

unfoldable pub encode_rot_status : RotStatus → List ℕ → Option Cursor
unfolding put_rot_status
encode_rot_status rs buf = require (put_rot_status rs (start buf))

unfoldable pub encode_nonce : ℕ → List ℕ → Option Cursor
unfolding put_u32
encode_nonce nonce buf = require (put_u32 (start buf) 1 nonce)

-- `[0u8; 32]`.
abbrev pub scratch : List ℕ
scratch = replicate 32 0

-- The match of `encode` on the payload. `&scratch[..len]` is the part that was written.
unfoldable pub encode_payload : Payload → Cursor → Option Cursor
unfolding encode_nonce encode_rot_status put_submessage
encode_payload Payload.none c = some c
encode_payload (Payload.ping n) c = do
  s ← encode_nonce n scratch
  require (put_submessage c 2 (take s.pos s.buf))
encode_payload (Payload.pong n) c = do
  s ← encode_nonce n scratch
  require (put_submessage c 3 (take s.pos s.buf))
encode_payload Payload.get_rot_status c = require (put_submessage c 4 [])
encode_payload (Payload.rot_status rs) c = do
  s ← encode_rot_status rs scratch
  require (put_submessage c 5 (take s.pos s.buf))

unfoldable pub encode : Envelope → List ℕ → Option Cursor
unfolding put_u32 encode_payload
encode env out = do c ← require (put_u32 (start out) 1 env.seq); encode_payload env.payload c
