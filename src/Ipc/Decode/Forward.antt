-- ===== src/Ipc/Decode/Forward.antt =====
-- Every field that the decoder (ipc-proto/src/lib.rs) reads moves its position forward.
use mcu_runtime.Base.{
  ℕ, zero, suc, ◌+◌, ◌≤◌, ◌<◌, inl, inr, Bool, true, false, if◌then◌else◌, get_or, take, drop,
  Option-cases, Option, none, some, ◌>>=◌, List, length, arith,
}
use mcu_runtime.Base.Words.{as_u32}
use mcu_runtime.Ipc.{Envelope, Payload}
use mcu_runtime.Ipc.Wire.{get_rounds, get_varint, advance, skip_field, read_len_slice, add_group}
use mcu_runtime.Ipc.Decode.{
  Arm, scalar, skipped, payload, rot_status_arm, nonce_arm, envelope_arm, read_len_msg,
}

-- If there is a result, its position lies behind `pos` and in the buffer.
abbrev pub IsAhead : {T : Type 0} → List ℕ → ℕ → Option (T × ℕ) → Type 0
IsAhead buf pos none = Unit {0}
IsAhead buf pos (some (t, p)) = (pos < p) × (p ≤ length buf)

get_rounds-IsAhead :
    (n : ℕ) (buf : List ℕ) (pos value shift : ℕ)
    → IsAhead buf pos (get_rounds n buf pos value shift)
unfolding get_rounds
get_rounds-IsAhead zero buf pos value shift = tt
get_rounds-IsAhead (suc n) buf pos value shift = ground (
  arith,
  get_rounds-IsAhead n buf (pos + 1) (add_group value (get_or buf pos 0) shift) (shift + 7),
)

-- `get_varint` reads a byte at least and stays in the buffer.
pub get_varint-IsAhead : (buf : List ℕ) (pos : ℕ) → IsAhead buf pos (get_varint buf pos)
unfolding get_varint
get_varint-IsAhead buf pos = get_rounds-IsAhead 11 buf pos 0 0

-- If there is a position, it does not lie before `pos`.
abbrev IsOnward : ℕ → Option ℕ → Type 0
IsOnward pos none = Unit {0}
IsOnward pos (some p) = pos ≤ p

advance-IsOnward : (buf : List ℕ) (pos n : ℕ) → IsOnward pos (advance buf pos n)
unfolding advance
advance-IsOnward buf pos n = ground arith

weaken : (pos p : ℕ) (o : Option ℕ) → pos ≤ p → IsOnward p o → IsOnward pos o
weaken pos p none h a = tt
weaken pos p (some q) h a = omega arith

bind-IsOnward :
    (buf : List ℕ) (pos : ℕ) (o : Option (ℕ × ℕ)) (k : ℕ × ℕ → Option ℕ)
    → IsAhead buf pos o
    → ((v p : ℕ) → IsOnward p (k (v, p)))
    → IsOnward pos (o >>= k)
bind-IsOnward buf pos none k a h = tt
bind-IsOnward buf pos (some (v, p)) k a h = weaken pos p (k (v, p)) (omega arith) (h v p)

skip_field-IsOnward : (buf : List ℕ) (pos wire : ℕ) → IsOnward pos (skip_field buf pos wire)
unfolding skip_field
skip_field-IsOnward buf pos wire = ground (
  arith,
  bind-IsOnward buf pos (get_varint buf pos) (λ (v, p). some p) (get_varint-IsAhead buf pos)
      (λ v p. omega arith),
  bind-IsOnward buf pos (get_varint buf pos) (λ (v, p). advance buf p (as_u32 v))
      (get_varint-IsAhead buf pos) (λ v p. advance-IsOnward buf p (as_u32 v)),
  advance-IsOnward buf pos 8,
  advance-IsOnward buf pos 4,
)

-- If there is a result, its position does not lie before `pos`.
unfoldable pub Moves : {S : Type 0} → ℕ → Option (S × ℕ) → Type 0
Moves pos none = Unit {0}
Moves pos (some (s, p)) = pos ≤ p

if-Moves :
    {S : Type 0} (pos : ℕ) (b : Bool) (x y : Option (S × ℕ))
    → Moves pos x
    → Moves pos y
    → Moves pos (if b then x else y)
unfolding Moves
if-Moves pos true x y h k = h
if-Moves pos false x y h k = k

-- A result that is mapped, or refused, keeps its position.
map-Moves :
    {S T : Type 0} (pos : ℕ) (o : Option (S × ℕ)) (f : S → Option T)
    → Moves pos o
    → Moves pos (o >>= λ (s, p). f s >>= λ t. some (t, p))
unfolding Moves
map-Moves pos none f h = tt
map-Moves pos (some (s, p)) f h = elim (Option-cases (f s)) [
  | inl e ↦ rw e tt
  | inr (t, e) ↦ rw e h
]

scalar-Moves : {S : Type 0} (buf : List ℕ) (pos : ℕ) (f : ℕ → S) → Moves pos (scalar buf pos f)
unfolding Moves
scalar-Moves buf pos f = go (get_varint buf pos) (get_varint-IsAhead buf pos)
  where
    go : (o : Option (ℕ × ℕ)) → IsAhead buf pos o → Moves pos (o >>= λ (v, p). some (f v, p))
    go none h = tt
    go (some (v, p)) h = omega arith

skipped-Moves :
    {S : Type 0} (buf : List ℕ) (pos wire : ℕ) (s : S) → Moves pos (skipped buf pos wire s)
unfolding Moves
skipped-Moves buf pos wire s = go (skip_field buf pos wire) (skip_field-IsOnward buf pos wire)
  where
    go : (o : Option ℕ) → IsOnward pos o → Moves pos (o >>= λ p. some (s, p))
    go none h = tt
    go (some p) h = h

read_len_slice-Moves : (buf : List ℕ) (pos : ℕ) → Moves pos (read_len_slice buf pos)
unfolding read_len_slice Moves
read_len_slice-Moves buf pos = go (get_varint buf pos) (get_varint-IsAhead buf pos)
  where
    end :
        (pos p len : ℕ) (body : List ℕ) (o : Option ℕ)
        → pos < p
        → IsOnward p o
        → Moves pos (o >>= λ e. some (body, e))
    end pos p len body none l h = tt
    end pos p len body (some e) l h = omega arith

    go :
        (o : Option (ℕ × ℕ))
        → IsAhead buf pos o
        → Moves pos (
            o >>= λ (len, p).
            advance buf p (as_u32 len) >>= λ e. some (take (as_u32 len) (drop p buf), e))
    go none h = tt
    go (some (len, p)) h =
        end pos p len _ (advance buf p (as_u32 len)) (omega arith)
          (advance-IsOnward buf p (as_u32 len))

-- No arm moves the position back.
abbrev pub Forward : {S : Type 0} → Arm S → Type 0
Forward {S} arm =
    (field wire : ℕ) (buf : List ℕ) (s : S) (pos : ℕ) → Moves pos (arm field wire buf s pos)

pub nonce_arm-Forward : Forward nonce_arm
unfolding nonce_arm
nonce_arm-Forward field wire buf s pos =
    if-Moves pos _ _ _ (scalar-Moves buf pos as_u32) (skipped-Moves buf pos wire s)

pub rot_status_arm-Forward : Forward rot_status_arm
unfolding rot_status_arm
rot_status_arm-Forward field wire buf s pos = search (if-Moves, scalar-Moves, skipped-Moves) depth 8

read_len_msg-Moves :
    {T : Type 0} (buf : List ℕ) (pos : ℕ) (f : List ℕ → Option T)
    → Moves pos (read_len_msg buf pos f)
unfolding read_len_msg
read_len_msg-Moves buf pos f =
    map-Moves pos (read_len_slice buf pos) f (read_len_slice-Moves buf pos)

payload-Moves :
    {T : Type 0} (env : Envelope) (pos : ℕ) (o : Option (T × ℕ)) (f : T → Payload)
    → Moves pos o
    → Moves pos (payload env o f)
unfolding Moves
payload-Moves env pos none f h = tt
payload-Moves env pos (some (t, p)) f h = h

pub envelope_arm-Forward : Forward envelope_arm
unfolding envelope_arm
envelope_arm-Forward field wire buf s pos =
    search
      (
        if-Moves, scalar-Moves, payload-Moves, read_len_msg-Moves, read_len_slice-Moves,
        skipped-Moves,
      )
      depth 9
