-- ===== src/Ipc/Wire/Written.antt =====
-- A cursor of the codec (ipc-proto/src/lib.rs) after bytes were written at its position.
use mcu_runtime.Base.{
  ℕ, zero, suc, ◌+◌, ◌≤◌, ◌<◌, ◌≡◌, refl, sym, ap, ◌∙◌, List, [], ◌∷◌, ◌++◌, length, length-append,
  length-set, set, take, arith,
}
use mcu_runtime.Ipc.Wire.{Cursor, poke, copy_from_slice}
use mathlib.Core.List.{append-nil, append_assoc}

-- The cursor with `bytes` written at its position.
abbrev pub written : Cursor → List ℕ → Cursor
written c bytes = record { buf = copy_from_slice c.buf c.pos bytes; pos = c.pos + length bytes }

pub written-cons : (c : Cursor) (b : ℕ) (bs : List ℕ) → written (poke c b) bs ≡ written c (b ∷ bs)
unfolding copy_from_slice poke
written-cons c b bs =
    ap (λ (n : ℕ). record { buf = copy_from_slice (set c.buf c.pos b) (c.pos + 1) bs; pos = n })
      (omega arith)

copy_from_slice-append :
    (buf : List ℕ) (pos : ℕ) (xs ys : List ℕ)
    → copy_from_slice (copy_from_slice buf pos xs) (pos + length xs) ys
      ≡ copy_from_slice buf pos (xs ++ ys)
unfolding copy_from_slice
copy_from_slice-append buf pos [] ys = ap (λ (n : ℕ). copy_from_slice buf n ys) (omega arith)
copy_from_slice-append buf pos (x ∷ xs) ys =
    ap (λ (n : ℕ). copy_from_slice (copy_from_slice (set buf pos x) (pos + 1) xs) n ys)
      (omega arith)
    ∙ copy_from_slice-append (set buf pos x) (pos + 1) xs ys

pub written-append :
    (c : Cursor) (xs ys : List ℕ) → written (written c xs) ys ≡ written c (xs ++ ys)
written-append c xs ys =
    λ i. record { buf = copy_from_slice-append c.buf c.pos xs ys i; pos = ends i }
  where
    ends : c.pos + length xs + length ys ≡ c.pos + length (xs ++ ys)
    ends = omega (arith, length-append xs ys)

pub length-copy_from_slice :
    (buf : List ℕ) (pos : ℕ) (bytes : List ℕ) → length (copy_from_slice buf pos bytes) ≡ length buf
unfolding copy_from_slice
length-copy_from_slice buf pos [] = refl
length-copy_from_slice buf pos (b ∷ bs) =
    length-copy_from_slice (set buf pos b) (pos + 1) bs ∙ length-set buf pos b

take-set :
    (buf : List ℕ) (pos b : ℕ)
    → pos < length buf
    → take (pos + 1) (set buf pos b) ≡ take pos buf ++ (b ∷ [])
take-set [] pos b h = elim h [ ]
take-set (x ∷ xs) zero b h = refl
take-set (x ∷ xs) (suc pos) b h =
    let e : suc pos + 1 ≡ suc (pos + 1) = omega arith in
    rw e (ap (λ (ys : List ℕ). x ∷ ys) (take-set xs pos b (omega arith)))

-- What stands before the position and the bytes just written.
take-copy_from_slice :
    (buf : List ℕ) (pos : ℕ) (bytes : List ℕ)
    → pos + length bytes ≤ length buf
    → take (pos + length bytes) (copy_from_slice buf pos bytes) ≡ take pos buf ++ bytes
unfolding copy_from_slice
take-copy_from_slice buf pos [] h =
    ap (λ (n : ℕ). take n buf) (omega arith) ∙ sym (append-nil (take pos buf))
take-copy_from_slice buf pos (b ∷ bs) h =
    ap (λ (n : ℕ). take n (copy_from_slice (set buf pos b) (pos + 1) bs)) (omega arith)
    ∙ take-copy_from_slice (set buf pos b) (pos + 1) bs (omega (arith, length-set {0} buf pos b))
    ∙ ap (λ (front : List ℕ). front ++ bs) (take-set buf pos b (omega arith))
    ∙ append_assoc (take pos buf) (b ∷ []) bs

-- In a buffer that is filled from its start, the bytes written are the part in front of the
-- position.
pub take-written :
    (buf bytes : List ℕ)
    → length bytes ≤ length buf
    → let c = written (record { buf = buf; pos = 0 }) bytes in take c.pos c.buf ≡ bytes
take-written buf bytes h = take-copy_from_slice buf 0 bytes (omega arith)
