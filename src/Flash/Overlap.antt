-- ===== src/Flash/Overlap.antt =====
-- What a validated layout guarantees (app-rot/src/flash/mod.rs).
use mcu_runtime.Base.{ℕ, ◌+◌, ◌≤◌, ◌<◌, ◌≡◌, refl, ◌⊎◌, ◌↔◌, List, [], ◌∷◌, All, ok, arith}
use mcu_runtime.Flash.{Region, Layout, validate_pair, validate_from, validate}
use mcu_runtime.Base.Words.{IsU32}

-- The address `x` lies in the region.
abbrev Holds : Region → ℕ → Type 0
Holds r x = (r.offset ≤ x) × (x < r.offset + r.size)

-- A region that is not empty and ends within 32 bits.
abbrev IsSound : Region → Type 0
IsSound r = (0 < r.size) × IsU32 (r.offset + r.size)

-- No address lies in both regions.
abbrev IsApart : Region → Region → Type 0
IsApart a b = (x : ℕ) → Holds a x → Holds b x → ⊥

-- Every region is sound, and any two of them are apart.
abbrev pub IsPartition : List Region → Type 0
IsPartition [] = Unit {0}
IsPartition (a ∷ rest) = IsSound a × All (IsApart a) rest × IsPartition rest

IsApart-of_ends :
    (a b : Region) → (a.offset < b.offset + b.size → b.offset < a.offset + a.size → ⊥) → IsApart a b
IsApart-of_ends a b h x p q = h (omega arith) (omega arith)

validate_pair-IsApart :
    (a : Region) (bs : List Region)
    → validate_pair a (a.offset + a.size) bs ≡ ok tt
    → All (IsApart a) bs
unfolding validate_pair
validate_pair-IsApart a [] h = tt
validate_pair-IsApart a (b ∷ bs) h =
    (IsApart-of_ends a b (λ p q. ground arith), validate_pair-IsApart a bs (ground arith))

validate_from-IsPartition : (rs : List Region) → validate_from rs ≡ ok tt → IsPartition rs
unfolding validate_from
validate_from-IsPartition [] h = tt
validate_from-IsPartition (a ∷ rest) h = (
  ground arith,
  validate_pair-IsApart a rest (ground arith),
  validate_from-IsPartition rest (ground arith),
)

-- The test of two sound regions fails when no address lies in both: the larger of the two
-- offsets would be such an address.
ends_of_apart :
    (a b : Region)
    → IsSound a
    → IsSound b
    → IsApart a b
    → (b.offset + b.size ≤ a.offset) ⊎ (a.offset + a.size ≤ b.offset)
ends_of_apart a b sa sb h = ground (arith, h a.offset, h b.offset)

IsPartition-validate_pair :
    (a : Region) (bs : List Region)
    → IsSound a
    → All (IsApart a) bs
    → IsPartition bs
    → validate_pair a (a.offset + a.size) bs ≡ ok tt
unfolding validate_pair
IsPartition-validate_pair a [] sa h p = refl
IsPartition-validate_pair a (b ∷ bs) sa h p =
    ground (arith, ends_of_apart a b sa p.0 h.0, IsPartition-validate_pair a bs sa h.1 p.2)

IsPartition-validate_from : (rs : List Region) → IsPartition rs → validate_from rs ≡ ok tt
unfolding validate_from
IsPartition-validate_from [] p = refl
IsPartition-validate_from (a ∷ rest) p =
    ground (arith, IsPartition-validate_pair a rest p.0 p.1 p.2, IsPartition-validate_from rest p.2)

-- `validate` accepts exactly the layouts in which every region is sound and no address lies in
-- two regions.
pub validate_iff : (l : Layout) → (validate l ≡ ok tt) ↔ IsPartition l.regions
unfolding validate
validate_iff l = (validate_from-IsPartition l.regions, IsPartition-validate_from l.regions)
