-- ===== src/Ipc/Wire/Bytes.antt =====
-- The bytes of a varint and of a field in the wire format of the codec (ipc-proto/src/lib.rs).
use mcu_runtime.Base.{
  ℕ, zero, suc, ◌+◌, ◌*◌, ◌/◌, ◌%◌, ◌^◌, Bool, ◌≤◌, ◌<◌, ◌≡◌, refl, bit_or, if◌then◌else◌, ◌==◌,
  List, [], ◌∷◌, ◌++◌, length, arith,
}
use mcu_runtime.Ipc.Wire.{wt_varint, wt_len}
use native.Mathlib.Nat.{pow-suc}

-- The groups of seven bits of `v`, lowest first, each but the last with its top bit set; `n` is
-- the number of groups allowed behind the first.
unfoldable pub groups : ℕ → ℕ → List ℕ
groups zero v = v ∷ []
groups (suc n) v =
    let rest = groups n (v / 128) in if v / 128 == 0 then v ∷ [] else (v % 128 + 128) ∷ rest

abbrev pub varint : ℕ → List ℕ
varint v = groups 9 v

length-groups : (n v : ℕ) → (0 < length (groups n v)) × (length (groups n v) ≤ n + 1)
unfolding groups
length-groups zero v = omega arith
length-groups (suc n) v = ground (arith, length-groups n (v / 128))

-- Seven bits a byte: a number below `128 ^ (m + 1)` has at most `m + 1` groups.
pub length-groups_le : (n m v : ℕ) → v < 128 ^ suc m → length (groups n v) ≤ suc m
unfolding groups
length-groups_le zero m v h = omega arith
length-groups_le (suc n) zero v h = ground arith
length-groups_le (suc n) (suc m) v h =
    ground (arith, length-groups_le n m (v / 128) (omega (arith, pow-suc 128 (suc m))))

pub groups_small : (n v : ℕ) → v < 128 → groups n v ≡ v ∷ []
unfolding groups
groups_small zero v h = refl
groups_small (suc n) v h = ground arith

pub groups_large : (n v : ℕ) → 128 ≤ v → groups (suc n) v ≡ (v % 128 + 128) ∷ groups n (v / 128)
unfolding groups
groups_large n v h = ground arith

-- The bytes of a scalar field, which is left out at its default.
abbrev pub u32_bytes : ℕ → ℕ → List ℕ
u32_bytes field v = if v == 0 then [] else bit_or (field * 8) wt_varint ∷ varint v

abbrev pub bool_bytes : ℕ → Bool → List ℕ
bool_bytes field v = if v then bit_or (field * 8) wt_varint ∷ varint 1 else []

-- The bytes of a length-delimited field.
abbrev pub message_bytes : ℕ → List ℕ → List ℕ
message_bytes field body = bit_or (field * 8) wt_len ∷ (varint (length body) ++ body)

-- `field` has a tag of one byte with each wire type that is written.
abbrev pub IsField : ℕ → Type 0
IsField field = (bit_or (field * 8) wt_varint < 128) × (bit_or (field * 8) wt_len < 128)
