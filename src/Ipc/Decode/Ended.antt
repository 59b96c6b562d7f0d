-- ===== src/Ipc/Decode/Ended.antt =====
-- The loops of the decoder (ipc-proto/src/lib.rs) as a relation without fuel, in which a loop that
-- goes on for ever has no result, and the functions of the model as its results.
use mcu_runtime.Base.{
  ℕ, zero, suc, ◌+◌, ◌≤◌, ◌<◌, ◌≡◌, inl, inr, false, ltb, Bool-cases, Option, none, some,
  Option-cases, List, length, arith,
}
use mcu_runtime.Ipc.{default_status, Payload}
use mcu_runtime.Ipc.Wire.{get_varint}
use mcu_runtime.Ipc.Decode.{
  Arm, fields, field_of, wire_of, rot_status_arm, nonce_arm, envelope_arm, decode_nonce,
  decode_rot_status, decode,
}
use mcu_runtime.Ipc.Decode.Forward.{
  IsAhead, get_varint-IsAhead, Moves, Forward, nonce_arm-Forward, rot_status_arm-Forward,
  envelope_arm-Forward,
}

-- `while pos < buf.len() { ... }` from a state and a position on returns a result, with so many
-- rounds that go on. Each constructor is a way out of the loop, or a round and the loop behind it.
pub data Returns {S : Type 0} (arm : Arm S) (buf : List ℕ) : S → ℕ → ℕ → Option S → Type 0 where
  ended : {s : S} {pos : ℕ} → length buf ≤ pos → Returns arm buf s pos zero (some s)
  no_tag :
      {s : S} {pos : ℕ}
      → pos < length buf
      → get_varint buf pos ≡ none
      → Returns arm buf s pos zero none
  refused :
      {s : S} {pos tag p : ℕ}
      → pos < length buf
      → get_varint buf pos ≡ some (tag, p)
      → arm (field_of tag) (wire_of tag) buf s p ≡ none
      → Returns arm buf s pos zero none
  round :
      {s s' : S} {pos tag p p' n : ℕ} {r : Option S}
      → pos < length buf
      → get_varint buf pos ≡ some (tag, p)
      → arm (field_of tag) (wire_of tag) buf s p ≡ some (s', p')
      → Returns arm buf s' p' n r
      → Returns arm buf s pos (suc n) r

-- The loop returns what the function with fuel does, within as many rounds as bytes are left.
abbrev pub ReturnsWithin : {S : Type 0} → Arm S → List ℕ → S → ℕ → ℕ → Option S → Type 0
ReturnsWithin arm buf s pos limit r = (n : ℕ) × (n ≤ limit) × Returns arm buf s pos n r

fields-Returns :
    {S : Type 0} (arm : Arm S)
    → Forward arm
    → (fuel : ℕ) (buf : List ℕ) (s : S) (pos : ℕ) → length buf ≤ pos + fuel
    → ReturnsWithin arm buf s pos fuel (fields arm fuel buf s pos)
unfolding fields Moves
fields-Returns arm fwd zero buf s pos h =
    let e : ltb pos (length buf) ≡ false = ground arith in
    rw e (zero, omega arith, ended (omega arith))
fields-Returns arm fwd (suc fuel) buf s pos h = elim (Bool-cases (ltb pos (length buf))) [
  | inr e ↦ rw e (zero, omega arith, ended (ground arith))
  | inl e ↦
      let within : pos < length buf = ground arith in
      rw e (elim (Option-cases (get_varint buf pos)) [
        | inl t ↦ rw t (zero, omega arith, no_tag within t)
        | inr ((tag, p), t) ↦
            let ahead : IsAhead buf pos (some (tag, p)) = rw t at (get_varint-IsAhead buf pos) in
            rw t (elim (Option-cases (arm (field_of tag) (wire_of tag) buf s p)) [
              | inl a ↦ rw a (zero, omega arith, refused within t a)
              | inr ((s', p'), a) ↦
                  let on : Moves p (some (s', p')) =
                    rw a at (fwd (field_of tag) (wire_of tag) buf s p) in
                  let (n, l, d) = fields-Returns arm fwd fuel buf s' p' (omega arith) in
                  let more : suc n ≤ suc fuel = omega (arith, l) in
                  rw a (suc n, more, round within t a d)
            ])
      ])
]

-- Each of the three loops of the decoder returns, on every buffer and within as many rounds as the
-- buffer has bytes, with the result of the function of the model: no loop goes on for ever, and a
-- result that is missing is one that the code rejects, not one for which the rounds ran out.
pub decode-Returns :
    (buf : List ℕ)
    → ReturnsWithin envelope_arm buf
        (record { seq = 0; payload = Payload.none })
        0
        (length buf)
        (decode buf)
      × ReturnsWithin rot_status_arm buf default_status 0 (length buf) (decode_rot_status buf)
      × ReturnsWithin nonce_arm buf 0 0 (length buf) (decode_nonce buf)
unfolding decode decode_rot_status decode_nonce
decode-Returns buf = (
  fields-Returns envelope_arm envelope_arm-Forward _ buf _ 0 (omega arith),
  fields-Returns rot_status_arm rot_status_arm-Forward _ buf _ 0 (omega arith),
  fields-Returns nonce_arm nonce_arm-Forward _ buf _ 0 (omega arith),
)
