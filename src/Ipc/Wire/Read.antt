-- ===== src/Ipc/Wire/Read.antt =====
-- Reading back what the codec (ipc-proto/src/lib.rs) writes: a varint in front of any bytes.
use mcu_runtime.Base.{
  ℕ, zero, suc, ◌+◌, ◌*◌, ◌/◌, ◌%◌, ◌^◌, ◌<◌, ◌≡◌, ap, ◌∙◌, some, List, [], ◌∷◌, ◌++◌, length,
  get_or, drop, arith,
}
use mcu_runtime.Base.Words.{IsU64}
use mcu_runtime.Base.Bits.{and_0x7f, and_0x80, or_shifted}
use mcu_runtime.Ipc.Wire.{get_rounds, get_varint}
use mcu_runtime.Ipc.Wire.Bytes.{groups, varint, groups_small, groups_large}
use native.Mathlib.Decide.{dec_lt}
use native.Mathlib.Numerals.{towards_suc}

-- `rest` is what stands in the buffer from the position on.
abbrev pub Rest : List ℕ → ℕ → List ℕ → Type 0
Rest buf pos rest = (drop pos buf ≡ rest) × (pos + length rest ≡ length buf)

next_byte :
    (buf : List ℕ) (pos b : ℕ) (more : List ℕ)
    → drop pos buf ≡ b ∷ more
    → (get_or buf pos 0 ≡ b) × (drop (pos + 1) buf ≡ more)
next_byte [] zero b more e = cc
next_byte [] (suc pos) b more e = cc
next_byte (x ∷ xs) zero b more e = (cc, cc)
next_byte (x ∷ xs) (suc pos) b more e =
    let (h, t) = next_byte xs pos b more e in
    (h, rw (let s : suc pos + 1 ≡ suc (pos + 1) = omega arith in s) t)

pub Rest-cons :
    (buf : List ℕ) (pos b : ℕ) (more : List ℕ) → Rest buf pos (b ∷ more) → Rest buf (pos + 1) more
Rest-cons buf pos b more (e, l) = ((next_byte buf pos b more e).1, omega arith)

pub Rest-append :
    (buf : List ℕ) (pos : ℕ) (xs ys : List ℕ)
    → Rest buf pos (xs ++ ys)
    → Rest buf (pos + length xs) ys
Rest-append buf pos [] ys (e, l) = rw (let s : pos + 0 ≡ pos = omega arith in s) (e, l)
Rest-append buf pos (x ∷ xs) ys r =
    let s : pos + suc (length xs) ≡ pos + 1 + length xs = omega arith in
    rw s (Rest-append buf (pos + 1) xs ys (Rest-cons buf pos x (xs ++ ys) r))

-- One round of the loop, on the last byte and on a byte before it.
get_last :
    (n : ℕ) (buf : List ℕ) (pos value shift b : ℕ) (more : List ℕ)
    → Rest buf pos (b ∷ more)
    → b < 128
    → shift < 64
    → value < 2 ^ shift
    → IsU64 (value + b * 2 ^ shift)
    → get_rounds (suc n) buf pos value shift ≡ some (value + b * 2 ^ shift, pos + 1)
unfolding get_rounds
get_last n buf pos value shift b more r hb hs hv fits =
    ground (arith, next_byte buf pos b more r.0, and_0x7f b, and_0x80 b, or_shifted shift value b)

get_inner :
    (n : ℕ) (buf : List ℕ) (pos value shift g : ℕ) (more : List ℕ)
    → Rest buf pos ((g + 128) ∷ more)
    → g < 128
    → shift < 64
    → value < 2 ^ shift
    → IsU64 (value + g * 2 ^ shift)
    → get_rounds (suc n) buf pos value shift
      ≡ get_rounds n buf (pos + 1) (value + g * 2 ^ shift) (shift + 7)
unfolding get_rounds
get_inner n buf pos value shift g more r hb hs hv fits = ground (
  arith,
  next_byte buf pos (g + 128) more r.0,
  and_0x7f (g + 128),
  and_0x80 (g + 128),
  or_shifted shift value g,
)

weight_up : (shift : ℕ) → 2 ^ (shift + 7) ≡ 2 ^ shift * 128
weight_up shift = simp towards_suc (omega arith)

-- A number, as its lowest group and the groups above it, each at its weight.
regroup : (shift w : ℕ) → w % 128 * 2 ^ shift + w / 128 * 2 ^ (shift + 7) ≡ w * 2 ^ shift
regroup shift w =
    let t = 2 ^ shift in
    let whole : (w / 128 * 128 + w % 128) * t ≡ w * t = ap (λ (n : ℕ). n * t) (omega arith) in
    rw (weight_up shift) (omega (arith, whole))

-- The value below the next shift: the group just read adds less than 128 times the power.
below_next : (value w s : ℕ) → value < 2 ^ s → value + w % 128 * 2 ^ s < 2 ^ (s + 7)
below_next value w s h = grind (arith, weight_up s)

-- The last group, whatever number of groups was allowed.
get_small :
    (k n w : ℕ) (buf : List ℕ) (pos value shift : ℕ) (more : List ℕ)
    → w < 128
    → Rest buf pos (groups k w ++ more)
    → shift < 64
    → value < 2 ^ shift
    → IsU64 (value + w * 2 ^ shift)
    → get_rounds (suc n) buf pos value shift
      ≡ some (value + w * 2 ^ shift, pos + length (groups k w))
get_small k n w buf pos value shift more h r hs hv fits =
    let e = groups_small k w h in
    rw e (get_last n buf pos value shift w more (rw e at r) h hs hv fits)

get_rounds-groups :
    (k n w : ℕ) (buf : List ℕ) (pos value shift : ℕ) (more : List ℕ)
    → Rest buf pos (groups k w ++ more)
    → k < n
    → shift + 7 * k < 64
    → value < 2 ^ shift
    → w < 128 ^ suc k
    → IsU64 (value + w * 2 ^ shift)
    → get_rounds n buf pos value shift ≡ some (value + w * 2 ^ shift, pos + length (groups k w))
get_rounds-groups k zero w buf pos value shift more r hn hs hv hw fits = absurd (omega arith)
get_rounds-groups zero (suc n) w buf pos value shift more r hn hs hv hw fits =
    get_small 0 n w buf pos value shift more (omega arith) r (omega arith) hv fits
get_rounds-groups (suc k) (suc n) w buf pos value shift more r hn hs hv hw fits =
    elim (dec_lt w 128) [
      | yes p ↦ get_small (suc k) n w buf pos value shift more p r (omega arith) hv fits
      | no p ↦
          let e = groups_large k w (omega arith) in
          let rest = groups k (w / 128) ++ more in
          let r' : Rest buf pos ((w % 128 + 128) ∷ rest) = rw e at r in
          rw e (
            get_inner n buf pos value shift (w % 128) rest r' (omega arith) (omega arith) hv
              (omega (arith, regroup shift w))
            ∙ get_rounds-groups k n (w / 128) buf (pos + 1) (value + w % 128 * 2 ^ shift)
                (shift + 7) more (Rest-cons buf pos (w % 128 + 128) rest r') (omega arith)
                (omega arith) (below_next value w shift hv) (omega arith)
                (omega (arith, regroup shift w))
            ∙ ground (arith, regroup shift w))
    ]

-- `get_varint` reads back the `u64` that was written as a varint, and stops behind it.
pub get_varint-varint :
    (buf : List ℕ) (pos v : ℕ) (more : List ℕ)
    → IsU64 v
    → Rest buf pos (varint v ++ more)
    → get_varint buf pos ≡ some (v, pos + length (varint v))
unfolding get_varint
get_varint-varint buf pos v more h r =
    get_rounds-groups 9 11 v buf pos 0 0 more r (omega arith) (omega arith) (omega arith)
      (omega arith) (omega arith)
    ∙ ground arith
