-- ===== src/Bootmcu/Boot/Unreleased.antt =====
-- The steps of the boot that leave the cores in reset (app-rot/src/bin/rot_ast2700_bootmcu.rs): the
-- requests to Caliptra and the loads of the payloads.
use mcu_runtime.Base.{
  ℕ, zero, suc, ◌+◌, ◌-◌, ◌*◌, ◌/◌, ◌≤◌, inl, inr, Bool-cases, Option-cases, ◌&&◌, ◌||◌, ◌==◌, not,
  Option, none, some, List, arith,
}
use mcu_runtime.Base.Words.{as_u32}
use mcu_runtime.Bootmcu.Halt.{Boot, ◌>>=◌}
use mcu_runtime.Bootmcu.Load.{
  Bus, BootMode, emmc, nor_flash, other, verify_payload, spi_base, copy_words, load_rounds,
  load_payload, copy_rounds, load_payload_word_copy_first, load_payload_from_boot_media,
}
use mcu_runtime.Bootmcu.Soc.{Soc, HwRev}
use mcu_runtime.Bootmcu.Auth.{
  set_auth_manifest, soc_manifest, populate_idevid, idevid_source, authorize_ca35_a2,
}
use mcu_runtime.Bootmcu.Ca35.{
  read_header, is_checked, a2_hdr_len, payload_bytes, a35_load_addr, a35_payload_size,
  a2_ca35_load_addr, a2_ca35_m77_stage_addr, load_m77, load_a2_image, load_ca35_payload_a2,
  load_raw_a35,
}
use mcu_runtime.Bootmcu.Boot.{scu1_clk_sel1}

-- The first address of the memory that payloads are loaded to.
abbrev pub payload_base : ℕ
payload_base = 0x80000000

module _ {M F O : Type 0} (b : Bus M) (soc : Soc M F O) (IsHeld : M → Type 0) where
  -- A call leaves cores that are in reset there.
  abbrev pub Keeps : {A : Type 0} → (M → M × A) → Type 0
  Keeps f = (m : M) → IsHeld m → IsHeld (f m).0

  abbrev pub KeepsAll : (M → M) → Type 0
  KeepsAll f = (m : M) → IsHeld m → IsHeld (f m)

  -- No call but `release` and those behind it takes a core out of reset: not the setup of the SoC,
  -- not a transfer into memory, not a request to Caliptra.
  pub record OnlyReleases : Type 0 where
    pub wr32 : (value : ℕ) → KeepsAll (soc.wr32 scu1_clk_sel1 value)
    pub init : KeepsAll soc.init
    pub wdt_init : KeepsAll soc.wdt_init
    pub extrst_init : KeepsAll soc.extrst_init
    pub sli_init_f : KeepsAll soc.sli_init_f
    pub sli_init_r : Keeps soc.sli_init_r
    pub early_crt_clock_select : KeepsAll soc.early_crt_clock_select
    pub apply_ibex_default_register_policy : KeepsAll soc.apply_ibex_default_register_policy
    pub sdrammc_init : Keeps soc.sdrammc_init
    pub bring_up_dp : KeepsAll soc.bring_up_dp
    pub init_ufs_axi_path : KeepsAll soc.init_ufs_axi_path
    pub init_pci_e2m : KeepsAll soc.init_pci_e2m
    pub otp_new : Keeps soc.otp_new
    pub set_auth_manifest : (bytes : List ℕ) → Keeps (soc.set_auth_manifest bytes)
    pub get_idev_ecc384_cert :
        (tbs sig_r sig_s : List ℕ) → Keeps (soc.get_idev_ecc384_cert tbs sig_r sig_s)
    pub populate_idev_ecc384_cert : (cert : List ℕ) → Keeps (soc.populate_idev_ecc384_cert cert)
    pub store_idevid_cert : (cert : List ℕ) → KeepsAll (soc.store_idevid_cert cert)
    pub authorize_and_stash : (id size : ℕ) → Keeps (soc.authorize_and_stash id size)
    pub copy32 : (dst src len : ℕ) → payload_base ≤ dst → KeepsAll (soc.copy32 dst src len)
    pub decompress :
        (src len dst room : ℕ) → payload_base ≤ dst → Keeps (soc.decompress src len dst room)
    pub enable_4byte_addr : KeepsAll b.enable_4byte_addr
    pub dma_read : (flash dst len : ℕ) → payload_base ≤ dst → Keeps (b.dma_read flash dst len)
    pub load_raw : (flash dst len : ℕ) → payload_base ≤ dst → KeepsAll (b.load_raw flash dst len)
    pub emmc_copy : (flash dst len : ℕ) → payload_base ≤ dst → Keeps (b.emmc_copy flash dst len)

  -- A sequence of calls that leave the cores in reset leaves them there, halted or not.
  pub bind-Keeps :
      {A B : Type 0} (p : Boot M A) (f : A → Boot M B)
      → Keeps p
      → ((a : A) → Keeps (f a))
      → Keeps (p >>= f)
  bind-Keeps {A = A} {B = B} p f h k m held = go (p m) (h m held)
    where
      go :
          (q : M × Option A)
          → IsHeld q.0
          → IsHeld
              (let (m', r) = q in
                let next : M × Option B = elim r [ none ↦ (m', none) | some a ↦ f a m' ] in next).0
      go (m', none) i = i
      go (m', some a) i = k a m' i

  module _ (only : OnlyReleases) where
    pub set_auth_manifest-Keeps : (hw : HwRev) → Keeps (set_auth_manifest b soc hw)
    unfolding set_auth_manifest
    set_auth_manifest-Keeps hw m h = elim (Bool-cases (soc.is_rdy_for_rt m)) [
      | inr f ↦ ground arith
      | inl r ↦ elim (Option-cases (soc_manifest b soc hw m)) [
        | inl e ↦ ground arith
        | inr (manifest, e) ↦ let k = only.set_auth_manifest manifest m h in ground arith
      ]
    ]

    pub populate_idevid-Keeps : (otp : O) → Keeps (populate_idevid b soc otp)
    unfolding populate_idevid
    populate_idevid-Keeps otp m h = elim (Bool-cases (soc.is_rdy_for_rt m)) [
      | inr f ↦ ground arith
      | inl r ↦ elim (Option-cases (idevid_source b soc otp m)) [
        | inl e ↦ ground arith
        | inr (src, e) ↦
            let k = only.get_idev_ecc384_cert src.tbs src.sig_r src.sig_s m h in
            let (m1, c) = soc.get_idev_ecc384_cert src.tbs src.sig_r src.sig_s m in
            elim (Option-cases c) [
              | inl q ↦ ground arith
              | inr (cert, q) ↦
                  let k2 = only.populate_idev_ecc384_cert cert m1 k in
                  let k3 = only.store_idevid_cert cert _ k2 in ground arith
            ]
      ]
    ]

    authorize_ca35_a2-Keeps : (size : ℕ) → Keeps (authorize_ca35_a2 b soc size)
    unfolding authorize_ca35_a2
    authorize_ca35_a2-Keeps size m h = let k = only.authorize_and_stash 9 size m h in ground arith

    load_m77-Keeps : (addr len : ℕ) → Keeps (load_m77 b soc addr len)
    unfolding load_m77
    load_m77-Keeps addr len m h =
        let dma =
          b.dma_read (as_u32 (addr + 4294967296 - spi_base)) a2_ca35_m77_stage_addr
            (as_u32 (len + 3) / 4 * 4) in
        let stage : payload_base ≤ a2_ca35_m77_stage_addr = omega arith in
        let h1 = only.dma_read _ _ _ stage m h in
        let h2 = only.copy32 _ addr len stage (dma m).0 h1 in
        elim (Bool-cases (dma m).1) [
          | inl e ↦ rw e (only.decompress _ len _ _ (omega arith) _ h1)
          | inr e ↦ rw e (only.decompress _ len _ _ (omega arith) _ h2)
        ]

    load_rounds-Keeps :
        (n flash dst len : ℕ) → payload_base ≤ dst → Keeps (load_rounds b n flash dst len)
    unfolding load_rounds copy_words
    load_rounds-Keeps zero flash dst len l m h = h
    load_rounds-Keeps (suc n) flash dst len l m h =
        let h1 =
          only.dma_read flash dst len l (b.enable_4byte_addr m) (only.enable_4byte_addr m h) in
        let h2 = only.load_raw flash dst len l _ h1 in
        let h3 = load_rounds-Keeps n flash dst len l _ h2 in
        let (m1, read) = b.dma_read flash dst len (b.enable_4byte_addr m) in
        let m2 = b.load_raw flash dst len m1 in
        elim (Bool-cases (read && verify_payload b flash dst len m1)) [
          | inl e ↦ rw e h1
          | inr e ↦ elim (Bool-cases (verify_payload b flash dst len m2)) [
            | inl q ↦ rw (e, q) h2
            | inr q ↦ rw (e, q) h3
          ]
        ]

    copy_rounds-Keeps :
        (n flash dst len : ℕ) → payload_base ≤ dst → Keeps (copy_rounds b n flash dst len)
    unfolding copy_rounds copy_words
    copy_rounds-Keeps zero flash dst len l m h = h
    copy_rounds-Keeps (suc n) flash dst len l m h =
        let h1 = only.load_raw flash dst len l _ (only.enable_4byte_addr m h) in
        let h2 = copy_rounds-Keeps n flash dst len l _ h1 in ground arith

    pub load_payload-Keeps :
        (mode : BootMode) (flash dst len : ℕ)
        → payload_base ≤ dst
        → Keeps (load_payload_from_boot_media b mode flash dst len)
    unfolding load_payload_from_boot_media load_payload
    load_payload-Keeps emmc flash dst len l m h = only.emmc_copy flash dst len l m h
    load_payload-Keeps nor_flash flash dst len l m h = load_rounds-Keeps 3 flash dst len l m h
    load_payload-Keeps other flash dst len l m h = h

    pub load_raw_a35-Keeps : (mode : BootMode) → Keeps (load_raw_a35 b soc mode)
    unfolding load_raw_a35 load_payload_word_copy_first
    load_raw_a35-Keeps nor_flash m h =
        copy_rounds-Keeps 3 soc.raw_a35_payload_flash_offset a35_load_addr a35_payload_size
          (omega arith) m h
    load_raw_a35-Keeps emmc m h =
        load_payload-Keeps emmc soc.raw_a35_payload_flash_offset a35_load_addr a35_payload_size
          (omega arith) m h
    load_raw_a35-Keeps other m h = h

    load_a2_image-Keeps : (size addr : ℕ) → Keeps (load_a2_image b soc size addr)
    unfolding load_a2_image read_header
    load_a2_image-Keeps size addr m h =
        let h1 = load_m77-Keeps (addr + a2_hdr_len) (b.rd32 m (addr + 8)) m h in
        let h2 =
          only.copy32 a2_ca35_load_addr (addr + a2_hdr_len) (payload_bytes b soc size) (omega arith)
            m h in
        let header = read_header b soc addr m in
        let compressed = header.magic == soc.raw_a35_header_m77_magic in
        let invalid =
          (not (header.magic == soc.raw_a35_header_magic) && not compressed)
          || not (is_checked b soc header) in
        elim (Bool-cases invalid) [
          | inl e ↦ rw e h
          | inr e ↦ elim (Bool-cases compressed) [ inl c ↦ rw (e, c) h1 | inr c ↦ rw (e, c) h2 ]
        ]

    pub load_ca35_payload_a2-Keeps : (hw : HwRev) → Keeps (load_ca35_payload_a2 b soc hw)
    unfolding load_ca35_payload_a2
    load_ca35_payload_a2-Keeps hw m h = elim (Option-cases (soc.parse_for hw m)) [
      | inl e ↦ rw (load_ca35_payload_a2, e) h
      | inr (container, e) ↦
          elim (Option-cases (soc.find_image container (soc.id_soc_images_base + 7))) [
            | inl q ↦ rw (load_ca35_payload_a2, e, q) h
            | inr (img, q) ↦
                let h1 = authorize_ca35_a2-Keeps img.size m h in
                let (m1, ok) = authorize_ca35_a2 b soc img.size m in
                elim (Bool-cases ok) [
                  | inr f ↦ rw (load_ca35_payload_a2, e, q, f) h1
                  | inl f ↦
                      elim (Option-cases (soc.image_addr container (soc.id_soc_images_base + 7))) [
                        | inl t ↦ rw (load_ca35_payload_a2, e, q, f, t) h1
                        | inr (addr, t) ↦
                            rw (load_ca35_payload_a2, e, q, f, t)
                              (load_a2_image-Keeps img.size addr m1 h1)
                      ]
                ]
          ]
    ]
