-- ===== src/Bootmcu/Ca35.antt =====
-- Loading the CA35's payload (app-rot/src/bin/rot_ast2700_bootmcu.rs). Addresses are 32 bits wide.
pub mod Header
use mcu_runtime.Base.{
  ℕ, ◌+◌, ◌-◌, ◌*◌, ◌/◌, bit_xor, Bool, true, false, ◌&&◌, ◌||◌, not, if◌then◌else◌, ◌==◌, Option,
  none, some, List,
}
use mcu_runtime.Base.Words.{as_u32}
use mcu_runtime.Bootmcu.Load.{
  Bus, BootMode, emmc, nor_flash, other, spi_base, load_payload_word_copy_first,
  load_payload_from_boot_media,
}
use mcu_runtime.Bootmcu.Soc.{Soc, HwRev, Image}
use mcu_runtime.Bootmcu.Auth.{authorize_ca35_a2}

abbrev pub a35_payload_size : ℕ
a35_payload_size = 0x1000000

abbrev pub a35_load_addr : ℕ
a35_load_addr = 0x83ffff60

abbrev pub a35_load_fudge : ℕ
a35_load_fudge = 0xa0

abbrev pub a2_ca35_load_addr : ℕ
a2_ca35_load_addr = 0x83ffff60

abbrev pub a2_ca35_m77_stage_addr : ℕ
a2_ca35_m77_stage_addr = 0x90000000

abbrev pub a2_hdr_len : ℕ
a2_hdr_len = 16

-- The four words of the CA35's boot header.
pub record BootHeader : Type 0 where
  pub magic : ℕ
  pub entry_off : ℕ
  pub payload_len : ℕ
  pub check : ℕ

module _ {M F O : Type 0} (b : Bus M) (soc : Soc M F O) where
  unfoldable pub read_header : ℕ → M → BootHeader
  read_header base m = record {
    magic = b.rd32 m base;
    entry_off = b.rd32 m (base + 4);
    payload_len = b.rd32 m (base + 8);
    check = b.rd32 m (base + 12);
  }

  -- `check == (magic ^ entry_off ^ payload_len)`.
  abbrev pub is_checked : BootHeader → Bool
  is_checked h = h.check == bit_xor (bit_xor h.magic h.entry_off) h.payload_len

  -- `none` halts.
  unfoldable pub read_a35_entry_addr : M → M × Option ℕ
  unfolding read_header
  read_a35_entry_addr m =
      let h = read_header (spi_base + soc.raw_a35_header_flash_offset) m in
      (
        m,
        if not (h.magic == soc.raw_a35_header_magic) || not (is_checked h)
            then none
            else some (as_u32 (a35_load_addr + a35_load_fudge + h.entry_off)),
      )

  -- The compressed payload of `load_ca35_payload_a2`: into the staging area by DMA, or else by
  -- words, and from there into the load window.
  unfoldable pub load_m77 : ℕ → ℕ → M → M × Bool
  load_m77 payload_addr compressed_len m =
      let dma_len = as_u32 (compressed_len + 3) / 4 * 4 in
      let (m1, read) =
        b.dma_read (as_u32 (payload_addr + 4294967296 - spi_base)) a2_ca35_m77_stage_addr dma_len
          m in
      let m2 =
        if read then m1 else soc.copy32 a2_ca35_m77_stage_addr payload_addr compressed_len m1 in
      let (m3, written) =
        soc.decompress a2_ca35_m77_stage_addr compressed_len a2_ca35_load_addr
          (a2_ca35_m77_stage_addr - a2_ca35_load_addr) m2 in
      (m3, elim written [ none ↦ false | some _ ↦ true ])

  -- `img.size as usize - A2_HDR_LEN`, without a check for overflow.
  abbrev pub payload_bytes : ℕ → ℕ
  payload_bytes size = as_u32 (size + 4294967296 - a2_hdr_len)

  -- `load_ca35_payload_a2` behind the authorization: the header at `hdr_addr`, and the payload.
  unfoldable pub load_a2_image : ℕ → ℕ → M → M × Option ℕ
  unfolding read_header load_m77
  load_a2_image size hdr_addr m =
      let h = read_header hdr_addr m in
      let compressed = h.magic == soc.raw_a35_header_m77_magic in
      let payload_addr = hdr_addr + a2_hdr_len in
      let (m1, loaded) =
        if compressed
        then load_m77 payload_addr h.payload_len m
        else (soc.copy32 a2_ca35_load_addr payload_addr (payload_bytes size) m, true) in
      if (not (h.magic == soc.raw_a35_header_magic) && not compressed) || not (is_checked h)
      then (m, none)
      else (m1, if loaded then some (as_u32 (a2_ca35_load_addr + h.entry_off)) else none)

  unfoldable pub load_ca35_payload_a2 : HwRev → M → M × Option ℕ
  unfolding load_a2_image
  load_ca35_payload_a2 hw m = elim (soc.parse_for hw m) [
    | none ↦ (m, none)
    | some container ↦
        let id = soc.id_soc_images_base + 7 in
        elim (soc.find_image container id) [
          | none ↦ (m, none)
          | some img ↦
              let (m1, authorized) = authorize_ca35_a2 b soc img.size m in
              if not authorized then (m1, none) else elim (soc.image_addr container id) [
                | none ↦ (m1, none)
                | some hdr_addr ↦ load_a2_image img.size hdr_addr m1
              ]
        ]
  ]

  -- The load on the other steppings, whose result tells whether the payload was loaded.
  unfoldable pub load_raw_a35 : BootMode → M → M × Bool
  unfolding load_payload_word_copy_first load_payload_from_boot_media
  load_raw_a35 nor_flash m =
      load_payload_word_copy_first b soc.raw_a35_payload_flash_offset a35_load_addr a35_payload_size
        m
  load_raw_a35 mode m =
      load_payload_from_boot_media b mode soc.raw_a35_payload_flash_offset a35_load_addr
        a35_payload_size m
