-- ===== src/Ipc/Decode/Rounds.antt =====
-- The loops of the decoder (ipc-proto/src/lib.rs) end: a round moves the position forward, so the
-- fuel given is enough, and one round at a time is an equation.
use mcu_runtime.Base.{
  ℕ, zero, suc, ◌+◌, ◌≤◌, ◌<◌, ◌≡◌, refl, ◌∙◌, inl, inr, ltb, Bool-cases, Option, none, some, ◌>>=◌,
  List, length, arith,
}
use mcu_runtime.Ipc.Wire.{get_varint}
use mcu_runtime.Ipc.Decode.{Arm, fields, field_of, wire_of}
use mcu_runtime.Ipc.Decode.Forward.{IsAhead, get_varint-IsAhead, Moves, Forward}

-- Two continuations that agree behind `pos` give one result.
bind_ahead :
    {T U : Type 0} (buf : List ℕ) (pos : ℕ) (o : Option (T × ℕ)) (k l : T × ℕ → Option U)
    → IsAhead buf pos o
    → ((t : T) (p : ℕ) → pos < p → k (t, p) ≡ l (t, p))
    → (o >>= k) ≡ (o >>= l)
bind_ahead buf pos none k l a h = refl
bind_ahead buf pos (some (t, p)) k l a h = h t p a.0

bind-Moves :
    {T U : Type 0} (pos : ℕ) (o : Option (T × ℕ)) (k l : T × ℕ → Option U)
    → Moves pos o
    → ((t : T) (p : ℕ) → pos ≤ p → k (t, p) ≡ l (t, p))
    → (o >>= k) ≡ (o >>= l)
unfolding Moves
bind-Moves pos none k l a h = refl
bind-Moves pos (some (t, p)) k l a h = h t p a

-- With as many rounds as bytes are left, or more, the number of rounds does not matter.
fields_fuel :
    {S : Type 0} (arm : Arm S)
    → Forward arm
    → (n m : ℕ) (buf : List ℕ) (s : S) (pos : ℕ) → length buf ≤ pos + n
    → length buf ≤ pos + m
    → fields arm n buf s pos ≡ fields arm m buf s pos
unfolding fields
fields_fuel arm fwd zero zero buf s pos h k = refl
fields_fuel arm fwd zero (suc m) buf s pos h k = ground arith
fields_fuel arm fwd (suc n) zero buf s pos h k = ground arith
fields_fuel arm fwd (suc n) (suc m) buf s pos h k = elim (Bool-cases (ltb pos (length buf))) [
  | inl e ↦ rw e (
      bind_ahead buf pos (get_varint buf pos) _ _ (get_varint-IsAhead buf pos) λ tag p l.
        bind-Moves p (arm (field_of tag) (wire_of tag) buf s p) _ _ (fwd _ _ buf s p)
          λ s' p' l'. fields_fuel arm fwd n m buf s' p' (omega arith) (omega arith))
  | inr e ↦ rw e
]

-- The rounds that are left to a message at `pos`.
abbrev pub from : {S : Type 0} → Arm S → List ℕ → S → ℕ → Option S
from arm buf s pos = fields arm (length buf) buf s pos

fields_step :
    {S : Type 0} (arm : Arm S) (n : ℕ) (buf : List ℕ) (s s' : S) (pos tag p p' : ℕ)
    → pos < length buf
    → get_varint buf pos ≡ some (tag, p)
    → arm (field_of tag) (wire_of tag) buf s p ≡ some (s', p')
    → fields arm (suc n) buf s pos ≡ fields arm n buf s' p'
unfolding fields
fields_step arm n buf s s' pos tag p p' h e f = ground arith

-- One round: a tag and a field that the arm accepts.
pub from-next :
    {S : Type 0} (arm : Arm S)
    → Forward arm
    → (buf : List ℕ) (s s' : S) (pos tag p p' : ℕ) → get_varint buf pos ≡ some (tag, p)
    → arm (field_of tag) (wire_of tag) buf s p ≡ some (s', p')
    → from arm buf s pos ≡ from arm buf s' p'
from-next arm fwd buf s s' pos tag p p' e f =
    let ahead : IsAhead buf pos (some (tag, p)) = rw e at (get_varint-IsAhead buf pos) in
    fields_fuel arm fwd (length buf) (suc (length buf)) buf s pos (omega arith) (omega arith)
    ∙ fields_step arm (length buf) buf s s' pos tag p p' (omega arith) e f

-- No byte is left.
pub from-end :
    {S : Type 0} (arm : Arm S) (buf : List ℕ) (s : S) (pos : ℕ)
    → pos ≡ length buf
    → from arm buf s pos ≡ some s
from-end arm buf s pos e = at (length buf)
  where
    at : (n : ℕ) → fields arm n buf s pos ≡ some s
    at zero = unfold fields in ground arith
    at (suc n) = unfold fields in ground arith
