-- ===== src/Bootmcu/Boot.antt =====
-- The boot of the AST2700 (`main` of app-rot/src/bin/rot_ast2700_bootmcu.rs, up to its loop).
pub mod Secure
pub mod Unreleased
pub mod Released
pub mod Unsecured
use mcu_runtime.Base.{
  ℕ, ◌+◌, ◌*◌, ◌^◌, bit_and, bit_or, Bool, true, false, if◌then◌else◌, not, Option, none, some,
}
use mcu_runtime.Bootmcu.Halt.{Boot, ◌>>=◌, ◌>>◌, pure, gets, modify, call, halt_unless, halt_none}
use mcu_runtime.Bootmcu.Load.{Bus, BootMode, load_payload_from_boot_media}
use mcu_runtime.Bootmcu.Soc.{Soc, DeviceId, HwRev, secure_boot_enabled}
use mcu_runtime.Bootmcu.Auth.{set_auth_manifest, populate_idevid}
use mcu_runtime.Bootmcu.Ca35.{load_ca35_payload_a2, read_a35_entry_addr, load_raw_a35}

abbrev pub scu1_clk_sel1 : ℕ
scu1_clk_sel1 = 0x14c02280

-- `(cur & !MASK) | val`.
unfoldable pub clk_sel1 : ℕ → ℕ
clk_sel1 cur = bit_or (bit_and cur 0x111fffff) (4 * 2 ^ 29 + 3 * 2 ^ 25 + 4 * 2 ^ 21)

abbrev pub raw_ssp_payload_flash_offset : ℕ
raw_ssp_payload_flash_offset = 0x1800000

abbrev pub raw_tsp_payload_flash_offset : ℕ
raw_tsp_payload_flash_offset = 0x1820000

abbrev pub m4_payload_size : ℕ
m4_payload_size = 0x20000

abbrev pub ssp_load_addr : ℕ
ssp_load_addr = 0xac000000

abbrev pub tsp_load_addr : ℕ
tsp_load_addr = 0xae000000

-- The payloads that are in memory when the cores are released.
pub record Loaded : Type 0 where
  pub entry : ℕ
  pub ssp : Bool
  pub tsp : Bool

module _ {M F O : Type 0} (b : Bus M) (soc : Soc M F O) where
  abbrev pub init_mac_rgmii_clk : M → M
  init_mac_rgmii_clk m = soc.wr32 scu1_clk_sel1 (clk_sel1 (b.rd32 m scu1_clk_sel1)) m

  -- `main` up to the OTP, for the stepping and the boot mode.
  unfoldable pub bring_up : Boot M (HwRev × BootMode)
  bring_up = do
    modify soc.init
    (dev, hw) ← gets soc.silicon_rev
    modify soc.wdt_init
    modify soc.extrst_init
    mode ← gets soc.detect
    modify soc.sli_init_f
    halt_unless soc.sli_init_r
    modify soc.early_crt_clock_select
    modify init_mac_rgmii_clk
    modify soc.apply_ibex_default_register_policy
    halt_unless soc.sdrammc_init
    modify soc.bring_up_dp
    modify soc.init_ufs_axi_path
    modify soc.init_pci_e2m
    modify b.enable_4byte_addr
    pure (hw, mode)

  -- The OTP driver; without it the boot goes on only when secure boot is off.
  unfoldable pub open_otp : M → M × Option O
  open_otp m =
      let (m', r) = soc.otp_new m in
      elim r [
        | some otp ↦ (m', some otp)
        | none ↦ (m', if secure_boot_enabled b m' then none else some (soc.with_ecc_enabled false))
      ]

  -- The payload of the CA35: authorized on an A2, from its fixed place on the other steppings.
  unfoldable pub load_ca35 : HwRev → BootMode → Boot M ℕ
  load_ca35 HwRev.a2 mode = halt_none (load_ca35_payload_a2 b soc HwRev.a2)
  load_ca35 hw mode = do
    entry ← halt_none (read_a35_entry_addr b soc)
    halt_unless (load_raw_a35 b soc mode)
    pure entry

  -- The payloads of the coprocessors, which may be missing.
  unfoldable pub load_coprocessors : BootMode → ℕ → Boot M Loaded
  load_coprocessors mode entry = do
    ssp ← call (
        load_payload_from_boot_media b mode raw_ssp_payload_flash_offset ssp_load_addr
          m4_payload_size)
    tsp ← call (
        load_payload_from_boot_media b mode raw_tsp_payload_flash_offset tsp_load_addr
          m4_payload_size)
    pure (record { entry = entry; ssp = ssp; tsp = tsp })

  -- The release of the cores.
  unfoldable pub start : Loaded → M → M
  start l m =
      let m1 = soc.set_rvbar l.entry (soc.enable_dram_access 0x40000000 (soc.ipc_new m)) in
      let m2 = if l.ssp then soc.init_ssp ssp_load_addr 0x100000 false m1 else m1 in
      let m3 = if l.tsp then soc.init_tsp tsp_load_addr 0x100000 false m2 else m2 in
      let m4 = soc.release m3 in
      let m5 = if l.ssp then soc.enable_ssp m4 else m4 in if l.tsp then soc.enable_tsp m5 else m5

  -- The two checks that stand before every payload.
  unfoldable pub authenticate : HwRev → O → Boot M (Unit {0})
  authenticate hw otp =
      halt_unless (set_auth_manifest b soc hw) >> halt_unless (populate_idevid b soc otp)

  unfoldable pub load : HwRev → BootMode → Boot M Loaded
  load hw mode = load_ca35 hw mode >>= load_coprocessors mode

  -- What follows the OTP: the checks, the payloads, the release.
  unfoldable pub authenticate_and_start : HwRev → BootMode → O → Boot M Loaded
  authenticate_and_start hw mode otp =
      authenticate hw otp >> (load hw mode >>= λ l m. (start l m, some l))

  -- What follows the first phase, for the stepping and the boot mode.
  unfoldable pub open_and_start : HwRev × BootMode → Boot M Loaded
  open_and_start (hw, mode) = halt_none open_otp >>= authenticate_and_start hw mode

  unfoldable pub boot : Boot M Loaded
  boot = bring_up >>= open_and_start
