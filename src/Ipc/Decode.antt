-- ===== src/Ipc/Decode.antt =====
-- The decoder of the IPC codec (ipc-proto/src/lib.rs). Its three loops over the fields of a
-- message are one function of the match in their body, with fuel for the rounds; a round reads a
-- byte at least, so as many rounds as bytes are enough.
pub mod Forward
pub mod Rounds
pub mod Ended
use mcu_runtime.Base.{
  ℕ, zero, suc, ◌+◌, ◌/◌, bit_and, Bool, true, false, ◌&&◌, not, if◌then◌else◌, ltb, ◌==◌, Option,
  none, some, ◌>>=◌, List, length,
}
use mcu_runtime.Base.Words.{as_u8, as_u32}
use mcu_runtime.Ipc.{RotStatus, default_status, Payload, Envelope}
use mcu_runtime.Ipc.Wire.{wt_varint, wt_len, get_varint, skip_field, read_len_slice}

-- The match of a loop on `(field, wire)`: the state after the field, and the position behind it.
abbrev pub Arm : Type 0 → Type 0
Arm S = ℕ → ℕ → List ℕ → S → ℕ → Option (S × ℕ)

-- The `u8` casts of a tag.
abbrev pub field_of : ℕ → ℕ
field_of tag = as_u8 (tag / 8)

abbrev pub wire_of : ℕ → ℕ
wire_of tag = as_u8 (bit_and tag 0x7)

-- `while pos < buf.len() { let tag = ...; match (field, wire) { ... } }`. What is missing is a
-- message that the code rejects, or a loop out of fuel, which Ipc.Decode.Ended tells apart.
unfoldable pub fields : {S : Type 0} → Arm S → ℕ → List ℕ → S → ℕ → Option S
fields arm zero buf s pos = if ltb pos (length buf) then none else some s
fields arm (suc n) buf s pos =
    let round = get_varint buf pos >>= λ (tag, p).
    arm (field_of tag) (wire_of tag) buf s p >>= λ (s', p'). fields arm n buf s' p' in
    if ltb pos (length buf) then round else some s

-- A whole message, from its default value.
abbrev message : {S : Type 0} → Arm S → S → List ℕ → Option S
message arm s buf = fields arm (length buf) buf s 0

-- `x = get_varint(buf, &mut pos)?`, with what the field becomes.
abbrev pub scalar : {S : Type 0} → List ℕ → ℕ → (ℕ → S) → Option (S × ℕ)
scalar buf pos f = get_varint buf pos >>= λ (v, p). some (f v, p)

abbrev pub skipped : {S : Type 0} → List ℕ → ℕ → ℕ → S → Option (S × ℕ)
skipped buf pos wire s = skip_field buf pos wire >>= λ p. some (s, p)

unfoldable pub rot_status_arm : Arm RotStatus
rot_status_arm field wire buf rs pos =
    if field == 1 && wire == wt_varint
    then scalar buf pos (λ v. record rs { silicon_rev = as_u32 v })
    else if field == 2 && wire == wt_varint
    then scalar buf pos (λ v. record rs { caliptra_flow_status = as_u32 v })
    else if field == 3 && wire == wt_varint
    then scalar buf pos (λ v. record rs { caliptra_boot_status = as_u32 v })
    else if field == 4 && wire == wt_varint
    then scalar buf pos (λ v. record rs { secure_boot_enabled = not (v == 0) })
    else if field == 5 && wire == wt_varint
    then scalar buf pos (λ v. record rs { caliptra_rt_ready = not (v == 0) })
    else skipped buf pos wire rs

unfoldable pub decode_rot_status : List ℕ → Option RotStatus
decode_rot_status buf = message rot_status_arm default_status buf

unfoldable pub nonce_arm : Arm ℕ
nonce_arm field wire buf nonce pos =
    if field == 1 && wire == wt_varint then scalar buf pos as_u32 else skipped buf pos wire nonce

unfoldable pub decode_nonce : List ℕ → Option ℕ
decode_nonce buf = message nonce_arm 0 buf

-- `read_len_msg`.
unfoldable pub read_len_msg : {T : Type 0} → List ℕ → ℕ → (List ℕ → Option T) → Option (T × ℕ)
read_len_msg buf pos f = read_len_slice buf pos >>= λ (body, end). f body >>= λ t. some (t, end)

-- A message field, with the payload that it becomes.
abbrev pub payload :
    {T : Type 0} → Envelope → Option (T × ℕ) → (T → Payload) → Option (Envelope × ℕ)
payload env o f = o >>= λ (t, end). some (record env { payload = f t }, end)

unfoldable pub envelope_arm : Arm Envelope
envelope_arm field wire buf env pos =
    if field == 1 && wire == wt_varint
    then scalar buf pos (λ v. record env { seq = as_u32 v })
    else if field == 2 && wire == wt_len
    then payload env (read_len_msg buf pos decode_nonce) Payload.ping
    else if field == 3 && wire == wt_len
    then payload env (read_len_msg buf pos decode_nonce) Payload.pong
    else if field == 4 && wire == wt_len
    then payload env (read_len_slice buf pos) (λ _. Payload.get_rot_status)
    else if field == 5 && wire == wt_len
    then payload env (read_len_msg buf pos decode_rot_status) Payload.rot_status
    else skipped buf pos wire env

unfoldable pub decode : List ℕ → Option Envelope
decode buf = message envelope_arm (record { seq = 0; payload = Payload.none }) buf
