-- ===== src/Bootmcu/Soc.antt =====
-- The calls of the BootMCU into its hardware abstraction layer, which are parameters
-- (app-rot/src/bin/rot_ast2700_bootmcu.rs).
use mcu_runtime.Base.{ℕ, bit_and, Bool, not, ◌==◌, Option, List}
use mcu_runtime.Bootmcu.Load.{Bus, BootMode}

pub data DeviceId : Type 0 where
  ast2750 unknown : DeviceId

pub data HwRev : Type 0 where
  a1 a2 unknown : HwRev

-- An entry of the image manifest.
pub record Image : Type 0 where
  pub size : ℕ

-- `F` is a parsed manifest and `O` the OTP driver. A call that only reads gives its answer, one that
-- writes gives the state that it leaves; errors, which the code does not look at, are `none` or
-- `false`. Words of the OTP have 16 bits.
pub record Soc (M F O : Type 0) : Type 0 where
  pub wr32 : ℕ → ℕ → M → M
  -- `hal::init`, the watchdog, the reset masks, and the SLI in its two parts.
  pub init : M → M
  pub wdt_init : M → M
  pub extrst_init : M → M
  pub sli_init_f : M → M
  pub sli_init_r : M → M × Bool
  pub early_crt_clock_select : M → M
  pub apply_ibex_default_register_policy : M → M
  pub sdrammc_init : M → M × Bool
  pub bring_up_dp : M → M
  pub init_ufs_axi_path : M → M
  pub init_pci_e2m : M → M
  pub silicon_rev : M → DeviceId × HwRev
  pub detect : M → BootMode
  -- OTP.
  pub otp_new : M → M × Option O
  pub with_ecc_enabled : Bool → O
  pub read_word : O → ℕ → M → Option ℕ
  pub read_bytes : O → ℕ → ℕ → M → Option (List ℕ)
  pub caliptra_start : ℕ
  -- The manifest in flash, and `decompress_into` of so many bytes from an address to another with
  -- the room there.
  pub parse_for : HwRev → M → Option F
  pub image_slice : F → ℕ → M → Option (List ℕ)
  pub find_image : F → ℕ → Option Image
  pub image_addr : F → ℕ → Option ℕ
  pub hdr_id_soc_manifest : ℕ
  pub id_soc_images_base : ℕ
  pub raw_a35_header_flash_offset : ℕ
  pub raw_a35_header_magic : ℕ
  pub raw_a35_header_m77_magic : ℕ
  pub raw_a35_payload_flash_offset : ℕ
  pub copy32 : ℕ → ℕ → ℕ → M → M
  pub decompress : ℕ → ℕ → ℕ → ℕ → M → M × Option ℕ
  -- Caliptra.
  pub is_rdy_for_rt : M → Bool
  pub flow_status : M → ℕ
  pub boot_status : M → ℕ
  pub set_auth_manifest : List ℕ → M → M × Bool
  pub max_tbs_size : ℕ
  pub get_idev_ecc384_cert : List ℕ → List ℕ → List ℕ → M → M × Option (List ℕ)
  pub populate_idev_ecc384_cert : List ℕ → M → M × Bool
  -- The copy to `IDEVID_CERT`, with its size.
  pub store_idevid_cert : List ℕ → M → M
  -- `authorize_and_stash` of a firmware and its size, the other arguments being constants: none, or
  -- whether it is authorized.
  pub authorize_and_stash : ℕ → ℕ → M → M × Option Bool
  -- The counter at 0x14c36000, a word at each read.
  pub read_timer : M → M × ℕ
  pub feed_trng : List ℕ → M → M
  pub fw_info : M → M
  -- The cores that are released, and the mailbox.
  pub enable_dram_access : ℕ → M → M
  pub set_rvbar : ℕ → M → M
  pub init_ssp : ℕ → ℕ → Bool → M → M
  pub init_tsp : ℕ → ℕ → Bool → M → M
  pub release : M → M
  pub enable_ssp : M → M
  pub enable_tsp : M → M
  pub ipc_new : M → M
  pub try_recv : ℕ → M → M × Option (ℕ × List ℕ)
  pub send : ℕ → ℕ → List ℕ → M → M

abbrev pub scu1_hwstrap1 : ℕ
scu1_hwstrap1 = 0x14c02010

-- Bit 5 of the strap.
abbrev pub secure_strap : ℕ → Bool
secure_strap strap = not (bit_and strap 0x20 == 0)

unfoldable pub secure_boot_enabled : {M : Type 0} → Bus M → M → Bool
secure_boot_enabled b m = secure_strap (b.rd32 m scu1_hwstrap1)
