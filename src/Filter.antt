-- ===== src/Filter.antt =====
-- The SPI filter policy (app-rot/src/filter.rs): a table of one bit for each page of 16 KiB, set
-- where writing is disabled. `Apply` is its application to the monitors.
pub mod Pages
pub mod Apply
use mcu_runtime.Base.{
  ℕ, zero, suc, ◌+◌, ◌-◌, ◌/◌, ◌%◌, ◌^◌, bit_or, Bool, true, false, ◌&&◌, not, if◌then◌else◌, ltb,
  leb, ◌==◌, none, some, List, [], ◌∷◌, get_or, set, replicate,
}
use mcu_runtime.Base.Words.{checked_add}
use mcu_runtime.Manifest.{ProtectedRegion, PlatformFirmwareManifest}

abbrev spi_address_table_entries : ℕ
spi_address_table_entries = 16

pub record SpiFilterPolicy : Type 0 where
  pub write_disable : List ℕ
  pub provisioned : Bool

unfoldable pub unprovisioned_bypass : SpiFilterPolicy
unprovisioned_bypass = record {
  write_disable = replicate spi_address_table_entries 0;
  provisioned = false;
}

unfoldable pub is_bypass : SpiFilterPolicy → Bool
is_bypass p = not p.provisioned

-- `self.write_disable[entry] |= 1u32 << bit`.
unfoldable pub disable_page : List ℕ → ℕ → List ℕ
disable_page table region =
    set table (region / 32) (bit_or (get_or table (region / 32) 0) (2 ^ (region % 32)))

-- The loop of `protect_range`, for at most `n` rounds.
unfoldable pub disable_pages : ℕ → List ℕ → ℕ → ℕ → List ℕ
unfolding disable_page
disable_pages zero table last region = table
disable_pages (suc n) table last region =
    let rest = disable_pages n (disable_page table region) last (region + 1) in
    if leb region last && ltb region 512 then rest else table

-- `protect_range`, with `n` rounds for its loop.
unfoldable pub protect_rounds : ℕ → List ℕ → ℕ → ℕ → List ℕ
unfolding disable_pages
protect_rounds n table offset size = elim (checked_add offset size) [
  | none ↦ table
  | some end ↦
      if size == 0 then table else disable_pages n table ((end - 1) / 0x4000) (offset / 0x4000)
]

-- The loop ends at page 512, so 512 rounds are enough.
unfoldable pub protect_range : List ℕ → ℕ → ℕ → List ℕ
unfolding protect_rounds
protect_range table offset size = protect_rounds 512 table offset size

-- The loop of `from_manifest` over the regions.
unfoldable pub protect_regions : List ℕ → List ProtectedRegion → List ℕ
unfolding protect_range
protect_regions table [] = table
protect_regions table (r ∷ rs) =
    protect_regions (if not r.permissions.write then protect_range table r.offset r.size else table)
      rs

unfoldable pub from_manifest : PlatformFirmwareManifest → SpiFilterPolicy
unfolding protect_regions
from_manifest m = record {
  write_disable = protect_regions (replicate spi_address_table_entries 0) m.protected_regions;
  provisioned = true;
}
