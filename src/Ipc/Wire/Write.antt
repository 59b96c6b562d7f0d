-- ===== src/Ipc/Wire/Write.antt =====
-- That the writing functions of the codec (ipc-proto/src/lib.rs) write the bytes of Bytes exactly
-- when they fit.
use mcu_runtime.Base.{
  ◌⊎◌, inl, inr, ℕ, zero, suc, ◌+◌, ◌*◌, ◌/◌, ◌%◌, ◌^◌, Bool, ◌≤◌, ◌<◌, ◌≡◌, refl, ap, ◌∙◌, true,
  false, bit_or, if◌then◌else◌, ltb, leb, ◌==◌, Bool-cases, List, [], ◌∷◌, ◌++◌, length,
  length-append, length-set, arith,
}
use mcu_runtime.Base.Words.{IsU64}
use mcu_runtime.Base.Bits.{and_0x7f, or_0x80}
use mcu_runtime.Ipc.Wire.{
  Cursor, poke, put_rounds, put_varint, and_then, put_tag, put_u32, put_bool, copy_from_slice,
  put_submessage, wt_varint, wt_len,
}
use mathlib.Core.Path.{subst}
use native.Mathlib.Decide.{dec_lt}
use mcu_runtime.Ipc.Wire.Bytes.{
  groups, varint, groups_small, u32_bytes, bool_bytes, message_bytes, IsField,
}
use mcu_runtime.Ipc.Wire.Written.{written, written-cons, written-append, length-copy_from_slice}

-- Either there is room for the bytes and they are written, or there is none and the result
-- is false.
abbrev pub Writes : Cursor → List ℕ → Bool × Cursor → Type 0
Writes c bytes r =
    ((c.pos + length bytes ≤ length c.buf) × (r ≡ (true, written c bytes)))
    ⊎ ((length c.buf < c.pos + length bytes) × (r.0 ≡ false))

-- The position of a cursor does not pass the end of its buffer.
abbrev pub IsWithin : Cursor → Type 0
IsWithin c = c.pos ≤ length c.buf

nothing-Writes : (c : Cursor) → IsWithin c → Writes c [] (true, c)
unfolding copy_from_slice
nothing-Writes c h = inl (
  omega arith,
  ap (λ (n : ℕ). let d : Cursor = record { buf = c.buf; pos = n } in (true, d)) (omega arith),
)

cons-Writes :
    (c : Cursor) (b : ℕ) (bs : List ℕ) (r : Bool × Cursor)
    → Writes (poke c b) bs r
    → Writes c (b ∷ bs) r
unfolding poke
cons-Writes c b bs r (inl (p, e)) = inl (
  omega (arith, length-set {0} c.buf c.pos b),
  e ∙ ap (λ (d : Cursor). (true, d)) (written-cons c b bs),
)
cons-Writes c b bs r (inr (p, e)) = inr (omega (arith, length-set {0} c.buf c.pos b), e)

false_then :
    (r : Bool × Cursor) (k : Cursor → Bool × Cursor) → r.0 ≡ false → (and_then r k).0 ≡ false
false_then (true, c) k e = cc
false_then (false, c) k e = refl

pub then-Writes :
    (c : Cursor) (xs ys : List ℕ) (r : Bool × Cursor) (k : Cursor → Bool × Cursor)
    → Writes c xs r
    → ((c' : Cursor) → IsWithin c' → Writes c' ys (k c'))
    → Writes c (xs ++ ys) (and_then r k)
then-Writes c xs ys r k (inr (p, e)) f = inr (omega (arith, length-append xs ys), false_then r k e)
then-Writes c xs ys r k (inl (p, e)) f =
    rw e (joined (f (written c xs) (omega (arith, length-copy_from_slice c.buf c.pos xs))))
  where
    joined : Writes (written c xs) ys (k (written c xs)) → Writes c (xs ++ ys) (k (written c xs))
    joined (inl (q, d)) = inl (
      omega (arith, length-append xs ys, length-copy_from_slice c.buf c.pos xs),
      d ∙ ap (λ (w : Cursor). (true, w)) (written-append c xs ys),
    )
    joined (inr (q, d)) =
        inr (omega (arith, length-append xs ys, length-copy_from_slice c.buf c.pos xs), d)

-- One round of the loop, on the last group and on a group before it.
put_last :
    (n : ℕ) (c : Cursor) (v : ℕ)
    → v < 128
    → put_rounds (suc n) c v ≡ (if leb (length c.buf) c.pos then (false, c) else (true, poke c v))
unfolding put_rounds
put_last n c v h = ground (arith, and_0x7f v)

put_inner :
    (n : ℕ) (c : Cursor) (v : ℕ)
    → 128 ≤ v
    → put_rounds (suc n) c v ≡ (
        if leb (length c.buf) c.pos
        then (false, c)
        else put_rounds n (poke c (v % 128 + 128)) (v / 128))
unfolding put_rounds
put_inner n c v h = ground (arith, and_0x7f v, or_0x80 (v % 128))

guarded-Writes :
    (c : Cursor) (b : ℕ) (bs : List ℕ) (r : Bool × Cursor)
    → (c.pos < length c.buf → Writes (poke c b) bs r)
    → Writes c (b ∷ bs) (if leb (length c.buf) c.pos then (false, c) else r)
guarded-Writes c b bs r h = elim (Bool-cases (leb (length c.buf) c.pos)) [
  | inl e ↦ rw e (inr (ground arith, refl))
  | inr e ↦ rw e (cons-Writes c b bs r (h (ground arith)))
]

last-Writes : (c : Cursor) (v : ℕ) → c.pos < length c.buf → Writes (poke c v) [] (true, poke c v)
last-Writes c v h =
    nothing-Writes (poke c v) (unfold poke in omega (arith, length-set {0} c.buf c.pos v))

put_rounds-Writes :
    (n : ℕ) (c : Cursor) (v : ℕ) → v < 128 ^ suc n → Writes c (groups n v) (put_rounds (suc n) c v)
unfolding groups
put_rounds-Writes zero c v h =
    rw (put_last zero c v (omega arith)) (guarded-Writes c v [] (true, poke c v) (last-Writes c v))
put_rounds-Writes (suc n) c v h = elim (dec_lt v 128) [
  | yes p ↦
      let e : (v / 128 == 0) ≡ true = ground arith in
      rw (put_last (suc n) c v p, e) (guarded-Writes c v [] (true, poke c v) (last-Writes c v))
  | no p ↦
      let e : (v / 128 == 0) ≡ false = ground arith in
      rw (put_inner (suc n) c v (omega arith), e)
        (guarded-Writes c (v % 128 + 128) (groups n (v / 128)) _
          (λ _. put_rounds-Writes n (poke c (v % 128 + 128)) (v / 128) (omega arith)))
]

-- `put_varint` of a `u64` writes its groups exactly when they fit, within its ten rounds.
put_varint-Writes : (c : Cursor) (v : ℕ) → IsU64 v → Writes c (varint v) (put_varint c v)
unfolding put_varint
put_varint-Writes c v h = put_rounds-Writes 9 c v (omega arith)

-- A tag of one byte.
put_tag-Writes :
    (c : Cursor) (field wire : ℕ)
    → bit_or (field * 8) wire < 128
    → Writes c (bit_or (field * 8) wire ∷ []) (put_tag c field wire)
unfolding put_tag
put_tag-Writes c field wire h =
    let tag = bit_or (field * 8) wire in
    subst (λ bytes. Writes c bytes (put_varint c tag)) (groups_small 9 tag h)
      (put_varint-Writes c tag (omega arith))

pub put_u32-Writes :
    (c : Cursor) (field v : ℕ)
    → IsWithin c
    → IsField field
    → IsU64 v
    → Writes c (u32_bytes field v) (put_u32 c field v)
unfolding put_u32
put_u32-Writes c field v w f h = elim (Bool-cases (v == 0)) [
  | inl e ↦ rw e (nothing-Writes c w)
  | inr e ↦ rw e (
      then-Writes c (bit_or (field * 8) wt_varint ∷ []) (varint v) (put_tag c field wt_varint) _
        (put_tag-Writes c field wt_varint f.0) (λ c' _. put_varint-Writes c' v h))
]

pub put_bool-Writes :
    (c : Cursor) (field : ℕ) (v : Bool)
    → IsWithin c
    → IsField field
    → Writes c (bool_bytes field v) (put_bool c field v)
unfolding put_bool
put_bool-Writes c field false w f = nothing-Writes c w
put_bool-Writes c field true w f =
    then-Writes c (bit_or (field * 8) wt_varint ∷ []) (varint 1) (put_tag c field wt_varint) _
      (put_tag-Writes c field wt_varint f.0) (λ c' _. put_varint-Writes c' 1 (omega arith))

copied-Writes :
    (c : Cursor) (body : List ℕ)
    → Writes c body
        (if ltb (length c.buf) (c.pos + length body) then (false, c) else (true, written c body))
copied-Writes c body = elim (Bool-cases (ltb (length c.buf) (c.pos + length body))) [
  | inl e ↦ rw e (inr (ground arith, refl))
  | inr e ↦ rw e (inl (ground arith, refl))
]

pub put_submessage-Writes :
    (c : Cursor) (field : ℕ) (body : List ℕ)
    → IsField field
    → IsU64 (length body)
    → Writes c (message_bytes field body) (put_submessage c field body)
unfolding put_submessage
put_submessage-Writes c field body f h =
    then-Writes c (bit_or (field * 8) wt_len ∷ varint (length body)) body _ _
      (then-Writes c (bit_or (field * 8) wt_len ∷ []) (varint (length body))
        (put_tag c field wt_len) _ (put_tag-Writes c field wt_len f.1)
        (λ c' _. put_varint-Writes c' (length body) h))
      (λ c' _. copied-Writes c' body)
