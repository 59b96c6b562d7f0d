-- ===== src/Ipc/RoundTrip.antt =====
-- Decoding what was encoded (ipc-proto/src/lib.rs): fields in `Fields`, messages and envelopes
-- here.
pub mod Fields
pub mod Alias
use mcu_runtime.Base.{
  ℕ, suc, bit_or, ◌+◌, ◌*◌, ◌≤◌, ◌<◌, ◌≡◌, refl, sym, ap, ◌∙◌, ◌⊎◌, inl, inr, Bool, true, false,
  Option, none, some, ◌>>=◌, List, [], ◌∷◌, ◌++◌, length, length-append, take, drop, arith,
}
use mcu_runtime.Base.Words.{IsU32, as_u32}
use mcu_runtime.Ipc.{max_envelope_len, RotStatus, default_status, Payload, Envelope}
use mcu_runtime.Ipc.Wire.{Cursor, wt_len, get_varint, read_len_slice}
use mcu_runtime.Ipc.Wire.Bytes.{varint, groups_small, IsField, u32_bytes, bool_bytes, message_bytes}
use mcu_runtime.Ipc.Wire.Read.{Rest, Rest-cons, Rest-append}
use mcu_runtime.Ipc.Encode.{encode}
use mcu_runtime.Ipc.Encode.Bytes.{
  rot_status_bytes, payload_bytes, envelope_bytes, IsStatus, IsPayload, IsEnvelope,
  length-u32_bytes, length-rot_status_bytes, length-envelope_bytes,
}
use mcu_runtime.Ipc.Encode.Layout.{encode_fits}
use mcu_runtime.Ipc.Decode.{
  Arm, field_of, wire_of, rot_status_arm, nonce_arm, envelope_arm, decode_nonce, decode_rot_status,
  read_len_msg, decode, payload,
}
use mcu_runtime.Ipc.Decode.Forward.{
  Forward, nonce_arm-Forward, rot_status_arm-Forward, envelope_arm-Forward,
}
use mcu_runtime.Ipc.Decode.Rounds.{from, from-next, from-end}
use Fields.{get_tag, from_u32, from_bool, read_len_slice_ok}
use mathlib.Core.List.{append-nil}

nothing_behind : (bytes : List ℕ) → Rest bytes 0 (bytes ++ [])
nothing_behind bytes = rw append-nil (refl, omega arith)

decode_nonce_ok : (n : ℕ) → IsU32 n → decode_nonce (u32_bytes 1 n) ≡ some n
unfolding decode_nonce nonce_arm
decode_nonce_ok n h =
    let buf = u32_bytes 1 n in
    from_u32 nonce_arm nonce_arm-Forward buf 0 1 n [] (λ v. v) (omega arith) h (nothing_behind buf)
      (λ p. refl)
    ∙ from-end nonce_arm buf n (0 + length buf) (omega arith)

decode_rot_status_ok :
    (rs : RotStatus) → IsStatus rs → decode_rot_status (rot_status_bytes rs) ≡ some rs
unfolding decode_rot_status rot_status_arm
decode_rot_status_ok rs h =
    let s1 = record default_status { silicon_rev = rs.silicon_rev } in
    let s2 = record s1 { caliptra_flow_status = rs.caliptra_flow_status } in
    let s3 = record s2 { caliptra_boot_status = rs.caliptra_boot_status } in
    let s4 = record s3 { secure_boot_enabled = rs.secure_boot_enabled } in
    let b1 = u32_bytes 1 rs.silicon_rev in
    let b2 = u32_bytes 2 rs.caliptra_flow_status in
    let b3 = u32_bytes 3 rs.caliptra_boot_status in
    let b4 = bool_bytes 4 rs.secure_boot_enabled in
    let b5 = bool_bytes 5 rs.caliptra_rt_ready in
    let buf = rot_status_bytes rs in
    let p1 = 0 + length b1 in
    let p2 = p1 + length b2 in
    let p3 = p2 + length b3 in
    let p4 = p3 + length b4 in
    let r1 : Rest buf p1 (b2 ++ (b3 ++ (b4 ++ b5))) = Rest-append buf 0 b1 _ (refl, omega arith) in
    let r2 : Rest buf p2 (b3 ++ (b4 ++ b5)) = Rest-append buf p1 b2 _ r1 in
    let r3 : Rest buf p3 (b4 ++ b5) = Rest-append buf p2 b3 _ r2 in
    let r4 : Rest buf p4 b5 = Rest-append buf p3 b4 _ r3 in
    from_u32 rot_status_arm rot_status_arm-Forward buf 0 1 rs.silicon_rev _
      (λ v. record default_status { silicon_rev = v }) (omega arith) h.silicon (refl, omega arith)
      (λ p. refl)
    ∙ from_u32 rot_status_arm rot_status_arm-Forward buf p1 2 rs.caliptra_flow_status _
        (λ v. record s1 { caliptra_flow_status = v }) (omega arith) h.flow r1 (λ p. refl)
    ∙ from_u32 rot_status_arm rot_status_arm-Forward buf p2 3 rs.caliptra_boot_status _
        (λ v. record s2 { caliptra_boot_status = v }) (omega arith) h.boot r2 (λ p. refl)
    ∙ from_bool rot_status_arm rot_status_arm-Forward buf p3 4 rs.secure_boot_enabled _
        (λ v. record s3 { secure_boot_enabled = v }) (omega arith) r3 (λ p. refl)
    ∙ from_bool rot_status_arm rot_status_arm-Forward buf p4 5 rs.caliptra_rt_ready []
        (λ v. record s4 { caliptra_rt_ready = v }) (omega arith) (rw append-nil r4) (λ p. refl)
    ∙ from-end rot_status_arm buf rs (p4 + length b5) (omega (arith, r4.1))

-- The message that ends an envelope is read as the payload that its arm makes of the body.
from_message :
    (buf : List ℕ) (pos field : ℕ) (body : List ℕ) (env env' : Envelope)
    → IsField field
    → IsU32 (length buf)
    → Rest buf pos (message_bytes field body)
    → ((p end : ℕ)
        → read_len_slice buf p ≡ some (body, end)
        → envelope_arm
            (field_of (bit_or (field * 8) wt_len))
            (wire_of (bit_or (field * 8) wt_len))
            buf
            env
            p
          ≡ some (env', end))
    → from envelope_arm buf env pos ≡ some env'
from_message buf pos field body env env' f u r k =
    let tag = bit_or (field * 8) wt_len in
    let p = pos + 1 in
    let end = p + length (varint (length body)) + length body in
    let r1 : Rest buf p (varint (length body) ++ (body ++ [])) =
      rw append-nil (Rest-cons buf pos tag _ r) in
    from-next envelope_arm envelope_arm-Forward buf env env' pos tag p end
      (get_tag buf pos tag _ f.1 r) (k p end (read_len_slice_ok buf p body [] u r1))
    ∙ from-end envelope_arm buf env' end
        (omega (arith, length-append (varint (length body)) body, r.1))

abbrev with_payload : ℕ → Payload → Envelope
with_payload v p = record { seq = v; payload = p }

-- The rest of an envelope, behind its sequence number.
decode_payload_ok :
    (p : Payload) (buf : List ℕ) (v pos : ℕ)
    → IsPayload p
    → IsU32 (length buf)
    → Rest buf pos (payload_bytes p)
    → from envelope_arm buf (with_payload v Payload.none) pos ≡ some (with_payload v p)
unfolding envelope_arm read_len_msg
decode_payload_ok Payload.none buf v pos h u r =
    from-end envelope_arm buf (with_payload v Payload.none) pos (omega (arith, r.1))
decode_payload_ok Payload.get_rot_status buf v pos h u r =
    from_message buf pos 4 [] _ _ (omega arith) u r λ p end e. rw e
decode_payload_ok (Payload.ping n) buf v pos h u r =
    from_message buf pos 2 (u32_bytes 1 n) _ _ (omega arith) u r
      λ p end e. rw (e, decode_nonce_ok n h)
decode_payload_ok (Payload.pong n) buf v pos h u r =
    from_message buf pos 3 (u32_bytes 1 n) _ _ (omega arith) u r
      λ p end e. rw (e, decode_nonce_ok n h)
decode_payload_ok (Payload.rot_status rs) buf v pos h u r =
    from_message buf pos 5 (rot_status_bytes rs) _ _ (omega arith) u r
      λ p end e. rw (e, decode_rot_status_ok rs h)

-- The bytes of an envelope are decoded to that envelope.
pub decode-envelope_bytes :
    (env : Envelope) → IsEnvelope env → decode (envelope_bytes env) ≡ some env
unfolding decode envelope_arm
decode-envelope_bytes env h =
    let buf = envelope_bytes env in
    let b1 = u32_bytes 1 env.seq in
    let u : IsU32 (length buf) = omega (arith, length-envelope_bytes env h) in
    let start : Rest buf 0 buf = (refl, omega arith) in
    from_u32 envelope_arm envelope_arm-Forward buf 0 1 env.seq _ (λ v. with_payload v Payload.none)
      (omega arith) h.seq start (λ p. refl)
    ∙ decode_payload_ok env.payload buf env.seq (0 + length b1) h.payload u
        (Rest-append buf 0 b1 (payload_bytes env.payload) start)

-- What `encode` writes into a buffer of 31 bytes or more, `decode` reads back: for every envelope
-- of 32-bit values the encoder succeeds, and the bytes that it reports as written are decoded to
-- that envelope.
pub decode-encode :
    (env : Envelope) (out : List ℕ)
    → IsEnvelope env
    → max_envelope_len ≤ length out
    → (c : Cursor) × (encode env out ≡ some c) × (decode (take c.pos c.buf) ≡ some env)
decode-encode env out h room =
    let (c, e, l, bytes) = encode_fits env out h room in
    (c, e, ap decode bytes ∙ decode-envelope_bytes env h)
