-- ===== src/Tests/Ipc.antt =====
-- The tests of the IPC codec (ipc-proto/src/lib.rs, `mod tests`).
use mcu_runtime.Base.{
  ℕ, ◌+◌, ◌*◌, ◌≡◌, refl, true, Option, none, some, List, [], ◌∷◌, ◌++◌, length, take, replicate,
  arith,
}
use mcu_runtime.Ipc.{RotStatus, default_status, Payload, Envelope}
use mcu_runtime.Ipc.Wire.{Cursor, get_varint, skip_field, read_len_slice, advance}
use mcu_runtime.Ipc.Wire.Bytes.{varint}
use mcu_runtime.Ipc.Wire.Read.{Rest}
use mcu_runtime.Ipc.Encode.{encode, start}
use mcu_runtime.Ipc.Encode.Bytes.{IsStatus, IsEnvelope, envelope_bytes}
use mcu_runtime.Ipc.Encode.Layout.{encode-Encodes, Encodes}
use mcu_runtime.Ipc.Decode.{
  decode, read_len_msg, decode_rot_status, decode_nonce, fields, envelope_arm, rot_status_arm,
  nonce_arm,
}
use mcu_runtime.Ipc.Decode.Ended.{ReturnsWithin, decode-Returns}
use mcu_runtime.Ipc.RoundTrip.{decode-encode}
use mcu_runtime.Ipc.RoundTrip.Alias.{decode_aliased}
use mcu_runtime.Bootmcu.{handle_ipc}

abbrev ping : Envelope
ping = record { seq = 7; payload = Payload.ping 0x1234 }

abbrev status : RotStatus
status = record {
  silicon_rev = 0xa1030003;
  caliptra_flow_status = 0xe0000000;
  caliptra_boot_status = 0xe002feed;
  secure_boot_enabled = true;
  caliptra_rt_ready = true;
}

abbrev report : Envelope
report = record { seq = 0xffffffff; payload = Payload.rot_status status }

abbrev slot : List ℕ
slot = replicate 31 0

-- The first bytes of the buffer, as many as the encoder reports.
abbrev encoded : Envelope → List ℕ → Option (List ℕ)
encoded env out = elim (encode env out) [ none ↦ none | some c ↦ some (take c.pos c.buf) ]

golden_ping : encoded ping slot ≡ some (0x08 ∷ 0x07 ∷ 0x12 ∷ 0x03 ∷ 0x08 ∷ 0xb4 ∷ 0x24 ∷ [])
unfolding encode
golden_ping = refl

golden_get_rot_status :
    encoded (record { seq = 0; payload = Payload.get_rot_status }) slot ≡ some (0x22 ∷ 0x00 ∷ [])
unfolding encode
golden_get_rot_status = refl

rot_status_defaults_omitted :
    encoded (record { seq = 1; payload = Payload.rot_status default_status }) slot
    ≡ some (0x08 ∷ 0x01 ∷ 0x2a ∷ 0x00 ∷ [])
unfolding encode
rot_status_defaults_omitted = refl

unknown_fields_skipped :
    decode (0x08 ∷ 0x05 ∷ 0x48 ∷ 0x2a ∷ 0x12 ∷ 0x00 ∷ [])
    ≡ some (record { seq = 5; payload = Payload.ping 0 })
unfolding decode fields get_varint envelope_arm skip_field read_len_msg read_len_slice advance
    decode_nonce
unknown_fields_skipped = refl

truncated_is_none : decode (0x12 ∷ 0x05 ∷ 0x08 ∷ []) ≡ none
unfolding decode fields get_varint envelope_arm read_len_msg read_len_slice advance
truncated_is_none = refl

no_room : encoded ping (replicate 6 0) ≡ none
unfolding encode
no_room = refl

report-IsEnvelope : IsEnvelope report
report-IsEnvelope = record {
  seq = omega arith;
  payload = record { silicon = omega arith; flow = omega arith; boot = omega arith };
}

decode-encode_example :
    (c : Cursor) × (encode report slot ≡ some c) × (decode (take c.pos c.buf) ≡ some report)
decode-encode_example = decode-encode report slot report-IsEnvelope (omega arith)

encode-Encodes_example :
    Encodes (start (replicate 6 0)) (envelope_bytes report) (encode report (replicate 6 0))
encode-Encodes_example = encode-Encodes report (replicate 6 0) report-IsEnvelope

abbrev ping_bytes : List ℕ
ping_bytes = 0x08 ∷ 0x07 ∷ 0x12 ∷ 0x03 ∷ 0x08 ∷ 0xb4 ∷ 0x24 ∷ []

decode-Returns_example :
    ReturnsWithin envelope_arm ping_bytes
      (record { seq = 0; payload = Payload.none })
      0
      (length ping_bytes)
      (decode ping_bytes)
    × ReturnsWithin rot_status_arm ping_bytes default_status 0
        (length ping_bytes)
        (decode_rot_status ping_bytes)
    × ReturnsWithin nonce_arm ping_bytes 0 0 (length ping_bytes) (decode_nonce ping_bytes)
decode-Returns_example = decode-Returns ping_bytes

behind : Rest (0x08 ∷ (varint 300 ++ (1 ∷ []))) 1 (varint 300 ++ (1 ∷ []))
behind = (refl, omega arith)

decode_aliased_example :
    decode (varint (8 + 2048 * 1) ++ varint 42) ≡ some (record { seq = 42; payload = Payload.none })
decode_aliased_example = decode_aliased 1 42 (omega arith) (omega arith)

-- The slot of a ping, as the coprocessor writes it.
ping_answered :
    handle_ipc status (7 ∷ 0x08 ∷ 0x07 ∷ 0x12 ∷ 0x03 ∷ 0x08 ∷ 0xb4 ∷ 0x24 ∷ replicate 24 0)
    ≡ some (7 ∷ 0x08 ∷ 0x07 ∷ 0x1a ∷ 0x03 ∷ 0x08 ∷ 0xb4 ∷ 0x24 ∷ replicate 24 0)
unfolding handle_ipc fields get_varint envelope_arm read_len_msg read_len_slice advance decode_nonce
    nonce_arm
ping_answered = refl

status-IsStatus : IsStatus status
status-IsStatus = record { silicon = omega arith; flow = omega arith; boot = omega arith }

asks-IsEnvelope : IsEnvelope (record { seq = 9; payload = Payload.get_rot_status })
asks-IsEnvelope = record { seq = omega arith; payload = tt }
