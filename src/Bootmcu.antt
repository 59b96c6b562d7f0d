-- ===== src/Bootmcu.antt =====
-- The answers of the AST2700 BootMCU to IPC requests (app-rot/src/bin/rot_ast2700_bootmcu.rs). The
-- status that it reports is an argument here, which `Service` reads from the hardware; a frame that
-- is sent is the result.
pub mod Reply
pub mod Load
pub mod Halt
pub mod Soc
pub mod Auth
pub mod Boot
pub mod Service
pub mod Ca35
use mcu_runtime.Base.{
  ℕ, Bool, true, false, ◌||◌, if◌then◌else◌, ltb, ◌==◌, Option, none, some, ◌>>=◌, List, [], ◌∷◌,
  get_or, take, drop, replicate,
}
use mcu_runtime.Base.Words.{as_u8}
use mcu_runtime.Ipc.{max_envelope_len, RotStatus, Payload, Envelope}
use mcu_runtime.Ipc.Wire.{Cursor}
use mcu_runtime.Ipc.Encode.{encode}
use mcu_runtime.Ipc.Decode.{decode}

-- The match of `handle_ipc` on the payload; `none` is the early return.
unfoldable pub reply_to : RotStatus → Payload → Option Payload
reply_to status (Payload.ping nonce) = some (Payload.pong nonce)
reply_to status Payload.get_rot_status = some (Payload.rot_status status)
reply_to status _ = none

-- `[0u8; 32]` behind its first byte.
abbrev pub frame_body : List ℕ
frame_body = replicate 31 0

-- The frame of a reply, with its length in front; nothing is sent when it does not fit.
unfoldable pub send_reply : Envelope → Option (List ℕ)
unfolding encode
send_reply reply = do c ← encode reply frame_body; some (as_u8 c.pos ∷ c.buf)

-- `handle_ipc` behind its check of the length: the answer to the encoded envelope.
unfoldable pub answer : RotStatus → List ℕ → Option (List ℕ)
unfolding decode reply_to send_reply
answer status body = do
  env ← decode body
  payload ← reply_to status env.payload
  send_reply (record { seq = env.seq; payload = payload })

unfoldable pub handle_ipc : RotStatus → List ℕ → Option (List ℕ)
unfolding answer
handle_ipc status request =
    let len = get_or request 0 0 in
    if len == 0 || ltb max_envelope_len len then none else answer status (take len (drop 1 request))
