-- ===== src/Ipc/Wire.antt =====
-- Varints, tags and scalar fields (ipc-proto/src/lib.rs). `buf: &mut [u8], pos: &mut usize` is a
-- cursor, passed on by each function; a shared `buf: &[u8]` is a list, and the position read is
-- returned. Shifts by a constant are products and quotients by a power of two.
pub mod Bytes
pub mod Written
pub mod Write
pub mod Read
use mcu_runtime.Base.{
  ℕ, zero, suc, ◌+◌, ◌*◌, ◌/◌, ◌%◌, ◌^◌, bit_and, bit_or, Bool, true, false, ◌||◌, not,
  if◌then◌else◌, ltb, leb, ◌==◌, Option, none, some, ◌>>=◌, List, [], ◌∷◌, length, set, get_or,
  take, drop,
}
use mcu_runtime.Base.Words.{as_u8, as_u32, checked_add}

-- Wire types.
abbrev pub wt_varint : ℕ
wt_varint = 0

abbrev wt_i64 : ℕ
wt_i64 = 1

abbrev pub wt_len : ℕ
wt_len = 2

abbrev wt_i32 : ℕ
wt_i32 = 5

pub record Cursor : Type 0 where
  pub buf : List ℕ
  pub pos : ℕ

-- `buf[*pos] = byte; *pos += 1`.
unfoldable pub poke : Cursor → ℕ → Cursor
poke c byte = record { buf = set c.buf c.pos byte; pos = c.pos + 1 }

-- The loop of `put_varint`, for at most `n` rounds.
unfoldable pub put_rounds : ℕ → Cursor → ℕ → Bool × Cursor
unfolding poke
put_rounds zero c v = (false, c)
put_rounds (suc n) c v =
    let low = as_u8 (bit_and v 0x7f) in
    let v' = v / 128 in
    let byte = if not (v' == 0) then bit_or low 0x80 else low in
    let c' = poke c byte in
    let rest = put_rounds n c' v' in
    if leb (length c.buf) c.pos then (false, c) else if v' == 0 then (true, c') else rest

-- Ten groups of seven bits are enough for a `u64`.
unfoldable pub put_varint : Cursor → ℕ → Bool × Cursor
unfolding put_rounds
put_varint c v = put_rounds 10 c v

-- `a && b`, where `b` goes on from the cursor that `a` left.
abbrev pub and_then : Bool × Cursor → (Cursor → Bool × Cursor) → Bool × Cursor
and_then (true, c) k = k c
and_then (false, c) k = (false, c)

unfoldable pub put_tag : Cursor → ℕ → ℕ → Bool × Cursor
unfolding put_varint
put_tag c field wire = put_varint c (bit_or (field * 8) wire)

unfoldable pub put_u32 : Cursor → ℕ → ℕ → Bool × Cursor
unfolding put_tag put_varint
put_u32 c field v =
    if v == 0 then (true, c) else and_then (put_tag c field wt_varint) (λ c'. put_varint c' v)

unfoldable pub put_bool : Cursor → ℕ → Bool → Bool × Cursor
unfolding put_tag put_varint
put_bool c field v =
    if not v then (true, c) else and_then (put_tag c field wt_varint) (λ c'. put_varint c' 1)

-- `buf[pos..pos + body.len()].copy_from_slice(body)`.
unfoldable pub copy_from_slice : List ℕ → ℕ → List ℕ → List ℕ
copy_from_slice buf pos [] = buf
copy_from_slice buf pos (b ∷ bs) = copy_from_slice (set buf pos b) (pos + 1) bs

-- A tag of wire type 2, the length, and the body.
unfoldable pub put_submessage : Cursor → ℕ → List ℕ → Bool × Cursor
unfolding put_tag put_varint copy_from_slice
put_submessage c field body =
    and_then (and_then (put_tag c field wt_len) (λ c'. put_varint c' (length body))) (λ c'.
      if ltb (length c'.buf) (c'.pos + length body)
      then (false, c')
      else (true, record { buf = copy_from_slice c'.buf c'.pos body; pos = c'.pos + length body }))

-- `value |= ((byte & 0x7f) as u64) << shift`.
abbrev pub add_group : ℕ → ℕ → ℕ → ℕ
add_group value byte shift = bit_or value (bit_and byte 0x7f * 2 ^ shift % 18446744073709551616)

-- The loop of `get_varint`, for at most `n` rounds: the value and the position behind it.
unfoldable pub get_rounds : ℕ → List ℕ → ℕ → ℕ → ℕ → Option (ℕ × ℕ)
get_rounds zero buf pos value shift = none
get_rounds (suc n) buf pos value shift =
    let byte = get_or buf pos 0 in
    let value' = add_group value byte shift in
    let rest = get_rounds n buf (pos + 1) value' (shift + 7) in
    if leb (length buf) pos || leb 64 shift
    then none
    else if bit_and byte 0x80 == 0
    then some (value', pos + 1)
    else rest

-- The shift reaches 70 in the eleventh round, which ends the loop.
unfoldable pub get_varint : List ℕ → ℕ → Option (ℕ × ℕ)
unfolding get_rounds
get_varint buf pos = get_rounds 11 buf pos 0 0

-- `pos.checked_add(n).filter(|p| *p <= buf.len())`.
unfoldable pub advance : List ℕ → ℕ → ℕ → Option ℕ
advance buf pos n = do p ← checked_add pos n; if leb p (length buf) then some p else none

-- The match of `skip_field` on the wire type.
unfoldable pub skip_field : List ℕ → ℕ → ℕ → Option ℕ
skip_field buf pos wire =
    if wire == wt_varint
    then (do (_, p) ← get_varint buf pos; some p)
    else if wire == wt_i64
    then advance buf pos 8
    else if wire == wt_len
    then (do (len, p) ← get_varint buf pos; advance buf p (as_u32 len))
    else if wire == wt_i32
    then advance buf pos 4
    else none

-- The slice that a length varint announces, and the position behind it.
unfoldable pub read_len_slice : List ℕ → ℕ → Option (List ℕ × ℕ)
read_len_slice buf pos = do
  (len, p) ← get_varint buf pos
  end ← advance buf p (as_u32 len)
  some (take (as_u32 len) (drop p buf), end)
