-- ===== src/Ipc/Encode/Layout.antt =====
-- That the encoder (ipc-proto/src/lib.rs) writes exactly the bytes of an envelope.
use mcu_runtime.Base.{
  ℕ, ◌+◌, ◌≤◌, ◌<◌, ◌≡◌, refl, ap, ◌∙◌, ◌⊎◌, inl, inr, Bool, true, false, Option, none, some, ◌>>=◌,
  List, [], ◌++◌, length, length-append, take, arith,
}
use mcu_runtime.Base.Words.{IsU32}
use mcu_runtime.Ipc.{max_envelope_len, RotStatus, Payload, Envelope}
use mcu_runtime.Ipc.Wire.{Cursor, put_u32, put_bool, put_submessage, copy_from_slice}
use mcu_runtime.Ipc.Wire.Bytes.{u32_bytes, message_bytes, IsField}
use mcu_runtime.Ipc.Wire.Written.{written, length-copy_from_slice, take-written, written-append}
use mcu_runtime.Ipc.Wire.Write.{
  Writes, then-Writes, put_u32-Writes, put_bool-Writes, put_submessage-Writes, IsWithin,
}
use mcu_runtime.Ipc.Encode.{
  start, require, put_rot_status, encode_rot_status, encode_nonce, scratch, encode_payload, encode,
}
use mcu_runtime.Ipc.Encode.Bytes.{
  rot_status_bytes, payload_bytes, envelope_bytes, IsStatus, IsPayload, IsEnvelope,
  length-u32_bytes, length-rot_status_bytes, length-envelope_bytes,
}

put_rot_status-Writes :
    (rs : RotStatus) (c : Cursor)
    → IsWithin c
    → IsStatus rs
    → Writes c (rot_status_bytes rs) (put_rot_status rs c)
unfolding put_rot_status
put_rot_status-Writes rs c w h =
    then-Writes c _ _ (put_u32 c 1 rs.silicon_rev) _
      (put_u32-Writes c 1 _ w (omega arith) (omega arith))
      λ c1 w1.
        then-Writes c1 _ _ (put_u32 c1 2 rs.caliptra_flow_status) _
          (put_u32-Writes c1 2 _ w1 (omega arith) (omega arith))
          λ c2 w2.
            then-Writes c2 _ _ (put_u32 c2 3 rs.caliptra_boot_status) _
              (put_u32-Writes c2 3 _ w2 (omega arith) (omega arith))
              λ c3 w3.
                then-Writes c3 _ _ (put_bool c3 4 rs.secure_boot_enabled) _
                  (put_bool-Writes c3 4 _ w3 (omega arith))
                  λ c4 w4. put_bool-Writes c4 5 rs.caliptra_rt_ready w4 (omega arith)

-- Either there is room for the bytes and the result is the cursor with them written, or there
-- is none and the result is none.
abbrev pub Encodes : Cursor → List ℕ → Option Cursor → Type 0
Encodes c bytes o =
    ((c.pos + length bytes ≤ length c.buf) × (o ≡ some (written c bytes)))
    ⊎ ((length c.buf < c.pos + length bytes) × (o ≡ none))

require-false : (r : Bool × Cursor) → r.0 ≡ false → require r ≡ none
require-false (true, c) e = cc
require-false (false, c) e = refl

require-Encodes :
    (c : Cursor) (bytes : List ℕ) (r : Bool × Cursor)
    → Writes c bytes r
    → Encodes c bytes (require r)
require-Encodes c bytes r (inl (p, e)) = inl (p, rw e)
require-Encodes c bytes r (inr (p, e)) = inr (p, require-false r e)

bind_false :
    (r : Bool × Cursor) (k : Cursor → Option Cursor) → r.0 ≡ false → (require r >>= k) ≡ none
bind_false (true, c) k e = cc
bind_false (false, c) k e = refl

bind-Encodes :
    (c : Cursor) (xs ys : List ℕ) (r : Bool × Cursor) (k : Cursor → Option Cursor)
    → Writes c xs r
    → ((c' : Cursor) → IsWithin c' → Encodes c' ys (k c'))
    → Encodes c (xs ++ ys) (require r >>= k)
bind-Encodes c xs ys r k (inr (p, e)) f = inr (omega (arith, length-append xs ys), bind_false r k e)
bind-Encodes c xs ys r k (inl (p, e)) f =
    rw e (joined (f (written c xs) (omega (arith, length-copy_from_slice c.buf c.pos xs))))
  where
    joined : Encodes (written c xs) ys (k (written c xs)) → Encodes c (xs ++ ys) (k (written c xs))
    joined (inl (q, d)) = inl (
      omega (arith, length-append xs ys, length-copy_from_slice c.buf c.pos xs),
      d ∙ ap (λ (w : Cursor). some w) (written-append c xs ys),
    )
    joined (inr (q, d)) =
        inr (omega (arith, length-append xs ys, length-copy_from_slice c.buf c.pos xs), d)

-- Up to 32 bytes fit the scratch buffer, and its filled part is these bytes.
scratch_filled :
    (bytes : List ℕ) (r : Bool × Cursor)
    → length bytes ≤ 32
    → Writes (start scratch) bytes r
    → (s : Cursor) × (require r ≡ some s) × (take s.pos s.buf ≡ bytes)
scratch_filled bytes r h (inl (p, e)) =
    (written (start scratch) bytes, rw e, take-written scratch bytes h)
scratch_filled bytes r h (inr (p, e)) = absurd (omega arith)

-- A body that was encoded into the scratch buffer, sent as the message `field`.
message-Encodes :
    (c : Cursor) (field : ℕ) (body : List ℕ) (o : Option Cursor)
    → IsField field
    → length body ≤ 32
    → (s : Cursor) × (o ≡ some s) × (take s.pos s.buf ≡ body)
    → Encodes c
        (message_bytes field body)
        (o >>= λ s. require (put_submessage c field (take s.pos s.buf)))
message-Encodes c field body o f h (s, e, t) =
    rw (e, t)
      (require-Encodes c (message_bytes field body) (put_submessage c field body)
        (put_submessage-Writes c field body f (omega arith)))

encode_nonce_filled :
    (n : ℕ)
    → IsU32 n
    → (s : Cursor) × (encode_nonce n scratch ≡ some s) × (take s.pos s.buf ≡ u32_bytes 1 n)
unfolding encode_nonce
encode_nonce_filled n h =
    let l = length-u32_bytes 1 n h in
    scratch_filled (u32_bytes 1 n) (put_u32 (start scratch) 1 n) (omega arith)
      (put_u32-Writes (start scratch) 1 n (omega arith) (omega arith) (omega arith))

encode_rot_status_filled :
    (rs : RotStatus)
    → IsStatus rs
    → (s : Cursor) × (encode_rot_status rs scratch ≡ some s)
      × (take s.pos s.buf ≡ rot_status_bytes rs)
unfolding encode_rot_status
encode_rot_status_filled rs h =
    let l = length-rot_status_bytes rs h in
    scratch_filled (rot_status_bytes rs) (put_rot_status rs (start scratch)) (omega arith)
      (put_rot_status-Writes rs (start scratch) (omega arith) h)

nothing-Encodes : (c : Cursor) → IsWithin c → Encodes c [] (some c)
unfolding copy_from_slice
nothing-Encodes c h = inl (
  omega arith,
  ap (λ (n : ℕ). let d : Cursor = record { buf = c.buf; pos = n } in some d) (omega arith),
)

encode_payload-Encodes :
    (p : Payload) (c : Cursor)
    → IsWithin c
    → IsPayload p
    → Encodes c (payload_bytes p) (encode_payload p c)
unfolding encode_payload
encode_payload-Encodes Payload.none c w h = nothing-Encodes c w
encode_payload-Encodes Payload.get_rot_status c w h =
    require-Encodes c (message_bytes 4 []) (put_submessage c 4 [])
      (put_submessage-Writes c 4 [] (omega arith) (omega arith))
encode_payload-Encodes (Payload.ping n) c w h =
    let l = length-u32_bytes 1 n h in
    message-Encodes c 2 (u32_bytes 1 n) (encode_nonce n scratch) (omega arith) (omega arith)
      (encode_nonce_filled n h)
encode_payload-Encodes (Payload.pong n) c w h =
    let l = length-u32_bytes 1 n h in
    message-Encodes c 3 (u32_bytes 1 n) (encode_nonce n scratch) (omega arith) (omega arith)
      (encode_nonce_filled n h)
encode_payload-Encodes (Payload.rot_status rs) c w h =
    let l = length-rot_status_bytes rs h in
    message-Encodes c 5 (rot_status_bytes rs) (encode_rot_status rs scratch) (omega arith)
      (omega arith) (encode_rot_status_filled rs h)

-- The encoder writes the bytes of the envelope and returns their number exactly when the buffer
-- has room for them; otherwise it returns none.
pub encode-Encodes :
    (env : Envelope) (out : List ℕ)
    → IsEnvelope env
    → Encodes (start out) (envelope_bytes env) (encode env out)
unfolding encode
encode-Encodes env out h =
    bind-Encodes (start out) (u32_bytes 1 env.seq) (payload_bytes env.payload)
      (put_u32 (start out) 1 env.seq) (encode_payload env.payload)
      (put_u32-Writes (start out) 1 env.seq (omega arith) (omega arith) (omega (arith, h.seq)))
      (λ c w. encode_payload-Encodes env.payload c w h.payload)

-- A buffer of 31 bytes, which a mailbox slot leaves behind its length byte, is enough for every
-- envelope: the encoder succeeds, its result is at most 30, and the bytes in front of it are
-- the bytes of the envelope.
pub encode_fits :
    (env : Envelope) (out : List ℕ)
    → IsEnvelope env
    → max_envelope_len ≤ length out
    → (c : Cursor) × (encode env out ≡ some c)
      × (c.pos ≤ 30)
      × (take c.pos c.buf ≡ envelope_bytes env)
encode_fits env out h room = elim (encode-Encodes env out h) [
  | inl (p, e) ↦ (
    written (start out) (envelope_bytes env),
    e,
    omega (arith, length-envelope_bytes env h),
    take-written out (envelope_bytes env) (omega arith),
  )
  | inr (p, e) ↦ absurd (omega (arith, length-envelope_bytes env h))
]
