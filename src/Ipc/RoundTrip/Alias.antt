-- ===== src/Ipc/RoundTrip/Alias.antt =====
-- Field numbers past 255 in the decoder (ipc-proto/src/lib.rs), whose cast keeps eight bits of them.
use mcu_runtime.Base.{ℕ, ◌+◌, ◌*◌, ◌≡◌, refl, ◌∙◌, some, [], ◌++◌, length, length-append, arith}
use mcu_runtime.Base.Words.{IsU32, IsU64, as_u32}
use mcu_runtime.Base.Bits.{and_seven}
use mcu_runtime.Ipc.{Payload, Envelope}
use mcu_runtime.Ipc.Wire.Bytes.{varint}
use mcu_runtime.Ipc.Wire.Read.{Rest, Rest-append, get_varint-varint}
use mcu_runtime.Ipc.Decode.{envelope_arm, field_of, wire_of, decode}
use mcu_runtime.Ipc.Decode.Forward.{envelope_arm-Forward}
use mcu_runtime.Ipc.Decode.Rounds.{from-next, from-end}
use mathlib.Core.List.{append-nil}

-- A message that consists of the unknown field `1 + 256 * k`, with the varint `v`, is not skipped:
-- it is decoded to the envelope with the sequence number `v`.
pub decode_aliased :
    (k v : ℕ)
    → IsU64 (8 + 2048 * k)
    → IsU32 v
    → decode (varint (8 + 2048 * k) ++ varint v) ≡ some (record { seq = v; payload = Payload.none })
unfolding decode envelope_arm
decode_aliased k v t h =
    let tag = 8 + 2048 * k in
    let buf = varint tag ++ varint v in
    let p = 0 + length (varint tag) in
    let empty : Envelope = record { seq = 0; payload = Payload.none } in
    let r : Rest buf p (varint v ++ []) =
      rw append-nil (Rest-append buf 0 (varint tag) (varint v) (refl, omega arith)) in
    let field : field_of tag ≡ 1 = omega arith in
    let wire : wire_of tag ≡ 0 = omega (arith, and_seven tag) in
    let value : as_u32 v ≡ v = omega arith in
    from-next envelope_arm envelope_arm-Forward buf empty (record empty { seq = v }) 0 tag p
      (p + length (varint v)) (get_varint-varint buf 0 tag (varint v) t (refl, omega arith))
      (rw (field, wire, get_varint-varint buf p v [] (omega arith) r, value) refl)
    ∙ from-end envelope_arm buf (record empty { seq = v }) (p + length (varint v))
        (omega (arith, length-append (varint tag) (varint v)))
