-- ===== src/Tests/Boot.antt =====
-- A load of the BootMCU (app-rot/src/bin/rot_ast2700_bootmcu.rs) in a memory that is a function of
-- the address.
use mcu_runtime.Base.{ℕ, ◌+◌, ◌-◌, ◌≡◌, refl, ◌↔◌, true, false, ◌&&◌, if◌then◌else◌, ltb, leb}
use mcu_runtime.Bootmcu.Load.{
  Bus, spi_base, nor_flash, load_payload_from_boot_media, load_payload_word_copy_first,
}
use mcu_runtime.Bootmcu.Load.Compared.{IsLoaded, load_iff}

-- The copy of `len` bytes from flash.
abbrev copied_to : ℕ → ℕ → ℕ → (ℕ → ℕ) → ℕ → ℕ
copied_to flash_offset dst len m a =
    if leb dst a && ltb a (dst + len) then m (spi_base + flash_offset + (a - dst)) else m a

-- A bus whose first kind of transfer does nothing but fail.
abbrev bus : Bus (ℕ → ℕ)
bus = record {
  rd32 = λ m a. m a;
  enable_4byte_addr = λ m. m;
  dma_read = λ flash_offset dst len m. (m, false);
  load_raw = copied_to;
  emmc_copy = λ flash_offset dst len m. (m, false);
}

abbrev memory : ℕ → ℕ
memory a = if leb spi_base a then a - spi_base + 1 else 0

loads : (load_payload_from_boot_media bus nor_flash 0x100 0x1000 32 memory).1 ≡ true
unfolding load_payload_from_boot_media
loads = refl

load_iff_example :
    let (m1, loaded) = load_payload_from_boot_media bus nor_flash 0x100 0x1000 32 memory in
    let (m2, copied) = load_payload_word_copy_first bus 0x100 0x1000 32 memory in
    ((loaded ≡ true) ↔ IsLoaded bus 0x100 0x1000 32 m1)
    × ((copied ≡ true) ↔ IsLoaded bus 0x100 0x1000 32 m2)
load_iff_example = load_iff bus 0x100 0x1000 32 memory
