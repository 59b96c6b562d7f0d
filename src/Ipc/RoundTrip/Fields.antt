-- ===== src/Ipc/RoundTrip/Fields.antt =====
-- One field of a message, read back by a loop of the decoder (ipc-proto/src/lib.rs).
use mcu_runtime.Base.{
  ℕ, suc, ◌+◌, ◌*◌, ◌≤◌, ◌<◌, ◌≡◌, refl, ap, ◌∙◌, inl, inr, Bool, true, false, not, ◌==◌,
  Bool-cases, bit_or, some, List, [], ◌∷◌, ◌++◌, length, length-append, take, arith,
}
use mcu_runtime.Base.Words.{IsU32, IsU64, as_u32}
use mcu_runtime.Ipc.Wire.{wt_varint, get_varint, advance, read_len_slice}
use mcu_runtime.Ipc.Wire.Bytes.{varint, groups_small, u32_bytes, bool_bytes, IsField}
use mcu_runtime.Ipc.Wire.Read.{Rest, Rest-cons, Rest-append, get_varint-varint}
use mcu_runtime.Ipc.Decode.{Arm, field_of, wire_of, scalar}
use mcu_runtime.Ipc.Decode.Forward.{Forward}
use mcu_runtime.Ipc.Decode.Rounds.{from, from-next}

-- A tag of one byte.
pub get_tag :
    (buf : List ℕ) (pos tag : ℕ) (more : List ℕ)
    → tag < 128
    → Rest buf pos (tag ∷ more)
    → get_varint buf pos ≡ some (tag, pos + 1)
get_tag buf pos tag more h r =
    let e = groups_small 9 tag h in
    get_varint-varint buf pos tag more (omega arith) (rw e r)
    ∙ ap (λ (bytes : List ℕ). some (tag, pos + length bytes)) e

from_scalar :
    {S : Type 0} (arm : Arm S)
    → Forward arm
    → (buf : List ℕ) (s : S) (pos tag v : ℕ) (more : List ℕ) (g : ℕ → S) → tag < 128
    → IsU64 v
    → Rest buf pos (tag ∷ (varint v ++ more))
    → ((p : ℕ) → arm (field_of tag) (wire_of tag) buf s p ≡ scalar buf p g)
    → from arm buf s pos ≡ from arm buf (g v) (pos + 1 + length (varint v))
from_scalar arm fwd buf s pos tag v more g ht hv r h =
    from-next arm fwd buf s (g v) pos tag (pos + 1) (pos + 1 + length (varint v))
      (get_tag buf pos tag (varint v ++ more) ht r)
      (h (pos + 1)
        ∙ rw (
            get_varint-varint buf (pos + 1) v more hv (Rest-cons buf pos tag (varint v ++ more) r)))

-- A `u32` field, or its absence, takes the state at the default to the state at its value.
pub from_u32 :
    {S : Type 0} (arm : Arm S)
    → Forward arm
    → (buf : List ℕ) (pos field v : ℕ) (more : List ℕ) (g : ℕ → S) → IsField field
    → IsU32 v
    → Rest buf pos (u32_bytes field v ++ more)
    → ((p : ℕ)
        → arm
            (field_of (bit_or (field * 8) wt_varint))
            (wire_of (bit_or (field * 8) wt_varint))
            buf
            (g 0)
            p
          ≡ scalar buf p (λ n. g (as_u32 n)))
    → from arm buf (g 0) pos ≡ from arm buf (g v) (pos + length (u32_bytes field v))
from_u32 arm fwd buf pos field v more g f hv r h = elim (Bool-cases (v == 0)) [
  | inl e ↦
      let z : 0 ≡ v = ground arith in
      let q : pos ≡ pos + 0 = omega arith in rw e (λ i. from arm buf (g (z i)) (q i))
  | inr e ↦
      let tag = bit_or (field * 8) wt_varint in
      let z : as_u32 v ≡ v = omega arith in
      let q : pos + 1 + length (varint v) ≡ pos + suc (length (varint v)) = omega arith in
      rw e (
        from_scalar arm fwd buf (g 0) pos tag v more (λ n. g (as_u32 n)) f.0 (omega arith)
          (rw e at r) h
        ∙ λ i. from arm buf (g (z i)) (q i))
]

-- A `bool` field, or its absence, likewise.
pub from_bool :
    {S : Type 0} (arm : Arm S)
    → Forward arm
    → (buf : List ℕ) (pos field : ℕ) (v : Bool) (more : List ℕ) (g : Bool → S) → IsField field
    → Rest buf pos (bool_bytes field v ++ more)
    → ((p : ℕ)
        → arm
            (field_of (bit_or (field * 8) wt_varint))
            (wire_of (bit_or (field * 8) wt_varint))
            buf
            (g false)
            p
          ≡ scalar buf p (λ n. g (not (n == 0))))
    → from arm buf (g false) pos ≡ from arm buf (g v) (pos + length (bool_bytes field v))
from_bool arm fwd buf pos field false more g f r h =
    ap (λ (n : ℕ). from arm buf (g false) n) (omega arith)
from_bool arm fwd buf pos field true more g f r h =
    from_scalar arm fwd buf (g false) pos (bit_or (field * 8) wt_varint) 1 more
      (λ n. g (not (n == 0))) f.0 (omega arith) r h
    ∙ ap (λ (n : ℕ). from arm buf (g true) n) (omega arith)

pub take-append : (xs ys : List ℕ) → take (length xs) (xs ++ ys) ≡ xs
take-append [] ys = refl
take-append (x ∷ xs) ys = ap (λ (zs : List ℕ). x ∷ zs) (take-append xs ys)

advance_ok :
    (buf : List ℕ) (pos n : ℕ)
    → IsU32 (length buf)
    → pos + n ≤ length buf
    → advance buf pos n ≡ some (pos + n)
unfolding advance
advance_ok buf pos n h k = ground arith

-- A length and a body are read back as the body, with the position behind it.
pub read_len_slice_ok :
    (buf : List ℕ) (pos : ℕ) (body more : List ℕ)
    → IsU32 (length buf)
    → Rest buf pos (varint (length body) ++ (body ++ more))
    → read_len_slice buf pos ≡ some (body, pos + length (varint (length body)) + length body)
unfolding read_len_slice
read_len_slice_ok buf pos body more u r =
    let p = pos + length (varint (length body)) in
    let r' = Rest-append buf pos (varint (length body)) (body ++ more) r in
    let l : p + length body ≤ length buf = omega (arith, length-append body more, r'.1) in
    let z : as_u32 (length body) ≡ length body = omega arith in
    rw (get_varint-varint buf pos (length body) (body ++ more) (omega arith) r)
      (rw (z, advance_ok buf p (length body) u l, r'.0, take-append body more))
