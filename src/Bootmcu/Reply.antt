-- ===== src/Bootmcu/Reply.antt =====
-- What the BootMCU answers (app-rot/src/bin/rot_ast2700_bootmcu.rs), for requests that a peer
-- encoded with the codec.
use mcu_runtime.Base.{
  ℕ, ◌≡◌, refl, ap, ◌∙◌, false, ltb, ◌==◌, Option, none, some, List, [], ◌∷◌, ◌++◌, length,
  length-append, get_or, take, drop, arith, inl, inr, Option-cases, Bool-cases,
}
use mcu_runtime.Base.Words.{as_u8}
use mcu_runtime.Ipc.{max_envelope_len, RotStatus, Payload, Envelope}
use mcu_runtime.Ipc.Wire.Bytes.{u32_bytes, message_bytes}
use mcu_runtime.Ipc.Encode.Bytes.{
  IsStatus, IsPayload, IsEnvelope, envelope_bytes, length-envelope_bytes,
}
use mcu_runtime.Ipc.Encode.Layout.{encode_fits}
use mcu_runtime.Ipc.Decode.{decode}
use mcu_runtime.Ipc.RoundTrip.{decode-envelope_bytes}
use mcu_runtime.Ipc.RoundTrip.Fields.{take-append}
use mcu_runtime.Bootmcu.{reply_to, frame_body, send_reply, answer, handle_ipc}

-- A request as it lies in a mailbox slot: the length, the encoded envelope, and what follows.
abbrev pub framed : Envelope → List ℕ → List ℕ
framed env pad = length (envelope_bytes env) ∷ (envelope_bytes env ++ pad)

-- The envelope that a peer reads from a frame.
abbrev received : List ℕ → Option Envelope
received frame = decode (take (get_or frame 0 0) (drop 1 frame))

-- What is owed to a request: nothing, or a frame that is read as the reply with its sequence
-- number.
abbrev pub Answered : ℕ → Option Payload → Option (List ℕ) → Type 0
Answered seq none sent = sent ≡ none
Answered seq (some p) sent =
    (frame : List ℕ) × (sent ≡ some frame)
    × (received frame ≡ some (record { seq = seq; payload = p }))

send_reply-Answered :
    (env : Envelope) → IsEnvelope env → Answered env.seq (some env.payload) (send_reply env)
unfolding send_reply
send_reply-Answered env h =
    let (c, e, l, bytes) = encode_fits env frame_body h (omega arith) in
    let small : as_u8 c.pos ≡ c.pos = omega arith in
    (as_u8 c.pos ∷ c.buf, rw e refl, rw small (ap decode bytes ∙ decode-envelope_bytes env h))

reply-IsPayload :
    (status : RotStatus) (p q : Payload)
    → IsStatus status
    → IsPayload p
    → reply_to status p ≡ some q
    → IsPayload q
unfolding reply_to
reply-IsPayload status p q s h e = ground arith

answer-Answered :
    (status : RotStatus) (env : Envelope)
    → IsStatus status
    → IsEnvelope env
    → Answered env.seq (reply_to status env.payload) (answer status (envelope_bytes env))
unfolding answer
answer-Answered status env s h = elim (Option-cases (reply_to status env.payload)) [
  | inl e ↦ rw (e, decode-envelope_bytes env h, e) refl
  | inr (q, e) ↦
      let reply : Envelope = record { seq = env.seq; payload = q } in
      let fits : IsPayload q = reply-IsPayload status env.payload q s h.payload e in
      rw (e, decode-envelope_bytes env h, e)
        (send_reply-Answered reply (record { seq = h.seq; payload = fits }))
]

-- Only an envelope without a payload is encoded to no byte.
no_bytes :
    (status : RotStatus) (seq : ℕ) (p : Payload)
    → length (envelope_bytes (record { seq = seq; payload = p })) ≡ 0
    → reply_to status p ≡ none
unfolding reply_to
no_bytes status seq Payload.none e = refl
no_bytes status seq (Payload.pong n) e = refl
no_bytes status seq (Payload.rot_status rs) e = refl
no_bytes status seq (Payload.ping n) e =
    absurd (omega (arith, length-append (u32_bytes 1 seq) (message_bytes 2 (u32_bytes 1 n)), e))
no_bytes status seq Payload.get_rot_status e =
    absurd (omega (arith, length-append (u32_bytes 1 seq) (message_bytes 4 []), e))

-- A framed request is answered by what the match on its payload gives.
framed-Answered :
    (status : RotStatus) (env : Envelope) (pad : List ℕ)
    → IsStatus status
    → IsEnvelope env
    → Answered env.seq (reply_to status env.payload) (handle_ipc status (framed env pad))
unfolding handle_ipc
framed-Answered status env pad s h =
    let bytes = envelope_bytes env in
    elim (Bool-cases (length bytes == 0)) [
      | inl e ↦ rw (e, no_bytes status env.seq env.payload (ground arith)) refl
      | inr e ↦
          let room : ltb max_envelope_len (length bytes) ≡ false =
            ground (arith, length-envelope_bytes env h) in
          rw (e, room, take-append bytes pad) (answer-Answered status env s h)
    ]

-- What is owed to each request: to a ping the pong with its nonce, to a status request the status,
-- and to the others nothing.
abbrev pub Replied : RotStatus → ℕ → Payload → Option (List ℕ) → Type 0
Replied status seq (Payload.ping nonce) sent = Answered seq (some (Payload.pong nonce)) sent
Replied status seq Payload.get_rot_status sent =
    Answered seq (some (Payload.rot_status status)) sent
Replied status seq _ sent = sent ≡ none

Answered-Replied :
    (status : RotStatus) (seq : ℕ) (p : Payload) (sent : Option (List ℕ))
    → Answered seq (reply_to status p) sent
    → Replied status seq p sent
unfolding reply_to
Answered-Replied status seq Payload.none sent a = a
Answered-Replied status seq (Payload.pong n) sent a = a
Answered-Replied status seq (Payload.rot_status rs) sent a = a
Answered-Replied status seq (Payload.ping n) sent a = a
Answered-Replied status seq Payload.get_rot_status sent a = a

-- Every request that a peer encoded and framed is answered: a ping by the pong with its nonce, a
-- status request by the status, both with the sequence number of the request, in a frame that the
-- peer's decoder reads as that envelope; no other envelope is answered.
pub handle_ipc-Replied :
    (status : RotStatus) (env : Envelope) (pad : List ℕ)
    → IsStatus status
    → IsEnvelope env
    → Replied status env.seq env.payload (handle_ipc status (framed env pad))
handle_ipc-Replied status env pad s h =
    Answered-Replied status env.seq env.payload (handle_ipc status (framed env pad))
      (framed-Answered status env pad s h)
