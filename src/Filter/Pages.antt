-- ===== src/Filter/Pages.antt =====
-- Which pages the SPI filter policy protects (app-rot/src/filter.rs).
use mcu_runtime.Base.{
  ℕ, zero, suc, ◌+◌, ◌-◌, ◌*◌, ◌/◌, ◌%◌, ◌^◌, ◌≤◌, ◌<◌, ◌≡◌, refl, ◌↔◌, ◌⊎◌, bit_or, false, List,
  [], ◌∷◌, length, get_or, length-set, get_or-set, get_or-set_other, replicate, arith,
}
use mcu_runtime.Base.Words.{IsU32}
use mcu_runtime.Base.Digits.{bit, bit-or, bit-pow, bit-pow_other, bit-le_one, bit-zero}
use native.Mathlib.Decide.{ℕ_discrete}
use mcu_runtime.Manifest.{ProtectedRegion, PlatformFirmwareManifest}
use mcu_runtime.Filter.{
  disable_page, disable_pages, protect_rounds, protect_range, protect_regions, from_manifest,
}

-- The bit of a page in the table.
abbrev page_bit : List ℕ → ℕ → ℕ
page_bit table page = bit (page % 32) (get_or table (page / 32) 0)

abbrev pub IsDisabled : List ℕ → ℕ → Type 0
IsDisabled table page = page_bit table page ≡ 1

-- The region may not be written, its range is not empty and ends within 32 bits, and an address
-- of it lies in the page.
pub record Protects (page : ℕ) (r : ProtectedRegion) : Type 0 where
  pub write : r.permissions.write ≡ false
  pub nonempty : 0 < r.size
  pub bounded : IsU32 (r.offset + r.size)
  pub starts : r.offset < (page + 1) * 0x4000
  pub ends : page * 0x4000 < r.offset + r.size

-- One of the regions does.
abbrev pub IsProtected : ℕ → List ProtectedRegion → Type 0
IsProtected page [] = ⊥
IsProtected page (r ∷ rs) = Protects page r ⊎ IsProtected page rs

bit-union : (j k a : ℕ) → (bit j (bit_or a (2 ^ k)) ≡ 1) ↔ ((bit j a ≡ 1) ⊎ (j ≡ k))
bit-union j k a = elim (ℕ_discrete j k) [
  | yes e ↦ rw e (ground (arith, bit-or k a (2 ^ k), bit-pow k, bit-le_one k a))
  | no e ↦ ground (arith, bit-or j a (2 ^ k), bit-pow_other j k e, bit-le_one j a)
]

disable_page-IsDisabled :
    (table : List ℕ) (region page : ℕ)
    → length table ≡ 16
    → region < 512
    → IsDisabled (disable_page table region) page ↔ (IsDisabled table page ⊎ (page ≡ region))
unfolding disable_page
disable_page-IsDisabled table region page l h =
    let entry = get_or table (region / 32) 0 in
    let value = bit_or entry (2 ^ (region % 32)) in
    elim (ℕ_discrete (page / 32) (region / 32)) [
      | yes e ↦
          rw (e, get_or-set table (region / 32) value 0 (omega arith))
            (ground (arith, bit-union (page % 32) (region % 32) entry))
      | no e ↦
          rw (get_or-set_other table (region / 32) (page / 32) value 0 (λ d. e (omega arith)))
            (ground arith)
    ]

length-disable_page :
    (table : List ℕ) (region : ℕ) → length (disable_page table region) ≡ length table
unfolding disable_page
length-disable_page table region =
    length-set {0} table (region / 32) (bit_or (get_or table (region / 32) 0) (2 ^ (region % 32)))

length-disable_pages :
    (n : ℕ) (table : List ℕ) (last region : ℕ)
    → length (disable_pages n table last region) ≡ length table
unfolding disable_pages
length-disable_pages zero table last region = refl
length-disable_pages (suc n) table last region = ground (
  arith,
  length-disable_pages n (disable_page table region) last (region + 1),
  length-disable_page table region,
)

disable_pages-IsDisabled :
    (n : ℕ) (table : List ℕ) (last region page : ℕ)
    → length table ≡ 16
    → 512 ≤ region + n
    → page < 512
    → IsDisabled (disable_pages n table last region) page
      ↔ (IsDisabled table page ⊎ ((region ≤ page) × (page ≤ last)))
unfolding disable_pages
disable_pages-IsDisabled zero table last region page l f h = ground arith
disable_pages-IsDisabled (suc n) table last region page l f h =
    let table' = disable_page table region in
    let l' : length table' ≡ 16 = omega (arith, length-disable_page table region) in
    let rest = disable_pages-IsDisabled n table' last (region + 1) page l' (omega arith) h in
    ground (arith, rest, λ (r : region < 512). disable_page-IsDisabled table region page l r)

length-protect_rounds :
    (n : ℕ) (table : List ℕ) (offset size : ℕ)
    → length (protect_rounds n table offset size) ≡ length table
unfolding protect_rounds
length-protect_rounds n table offset size =
    ground (arith, length-disable_pages n table ((offset + size - 1) / 0x4000) (offset / 0x4000))

protect_rounds-IsDisabled :
    (n : ℕ) (table : List ℕ) (r : ProtectedRegion) (page : ℕ)
    → length table ≡ 16
    → 512 ≤ n
    → page < 512
    → r.permissions.write ≡ false
    → IsDisabled (protect_rounds n table r.offset r.size) page
      ↔ (IsDisabled table page ⊎ Protects page r)
unfolding protect_rounds
protect_rounds-IsDisabled n table r page l f h w = ground (
  arith,
  disable_pages-IsDisabled n table ((r.offset + r.size - 1) / 0x4000) (r.offset / 0x4000) page l
      (omega arith) h,
)

length-protect_range :
    (table : List ℕ) (offset size : ℕ) → length (protect_range table offset size) ≡ length table
unfolding protect_range
length-protect_range table offset size = length-protect_rounds 512 table offset size

protect_range-IsDisabled :
    (table : List ℕ) (r : ProtectedRegion) (page : ℕ)
    → length table ≡ 16
    → page < 512
    → r.permissions.write ≡ false
    → IsDisabled (protect_range table r.offset r.size) page
      ↔ (IsDisabled table page ⊎ Protects page r)
unfolding protect_range
protect_range-IsDisabled table r page l h w =
    protect_rounds-IsDisabled 512 table r page l (omega arith) h w

protect_regions-IsDisabled :
    (table : List ℕ) (rs : List ProtectedRegion) (page : ℕ)
    → length table ≡ 16
    → page < 512
    → IsDisabled (protect_regions table rs) page ↔ (IsDisabled table page ⊎ IsProtected page rs)
unfolding protect_regions
protect_regions-IsDisabled table [] page l h = ground arith
protect_regions-IsDisabled table (r ∷ rs) page l h =
    let table' = protect_range table r.offset r.size in
    ground (
      arith,
      length-protect_range table r.offset r.size,
      protect_range-IsDisabled table r page l h,
      protect_regions-IsDisabled table rs page l h,
      λ (l' : length table' ≡ 16). protect_regions-IsDisabled table' rs page l' h,
    )

length-protect_regions :
    (table : List ℕ) (rs : List ProtectedRegion) → length (protect_regions table rs) ≡ length table
unfolding protect_regions
length-protect_regions table [] = refl
length-protect_regions table (r ∷ rs) = ground (
  arith,
  length-protect_range table r.offset r.size,
  length-protect_regions table rs,
  length-protect_regions (protect_range table r.offset r.size) rs,
)

pub length-from_manifest :
    (m : PlatformFirmwareManifest) → length (from_manifest m).write_disable ≡ 16
unfolding from_manifest
length-from_manifest m = length-protect_regions (replicate 16 0) m.protected_regions

nothing_disabled : (n i k : ℕ) → bit k (get_or (replicate n 0) i 0) ≡ 0
nothing_disabled zero i k = bit-zero k
nothing_disabled (suc n) zero k = bit-zero k
nothing_disabled (suc n) (suc i) k = nothing_disabled n i k

-- In the policy that is made from a manifest, the bit of each of the 512 pages is set exactly when
-- a region of the manifest that may not be written has a range that is not empty, ends within
-- 32 bits and meets the page.
pub from_manifest_iff :
    (m : PlatformFirmwareManifest) (page : ℕ)
    → page < 512
    → IsDisabled (from_manifest m).write_disable page ↔ IsProtected page m.protected_regions
unfolding from_manifest
from_manifest_iff m page h = ground (
  arith,
  protect_regions-IsDisabled (replicate 16 0) m.protected_regions page refl h,
  nothing_disabled 16 (page / 32) (page % 32),
)
