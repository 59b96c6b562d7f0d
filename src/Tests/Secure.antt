-- ===== src/Tests/Secure.antt =====
-- A boot of an AST2700 A2 with secure boot enabled, and rounds of the loop behind it
-- (app-rot/src/bin/rot_ast2700_bootmcu.rs). The hardware keeps whether the cores are released.
use mcu_runtime.Base.{
  ℕ, ◌+◌, ◌≡◌, ◌≢◌, refl, ◌⊎◌, bit_xor, Bool, true, false, if◌then◌else◌, ◌==◌, none, some, [], ◌∷◌,
  replicate, arith,
}
use mcu_runtime.Bootmcu.Halt.{Ends}
use mcu_runtime.Bootmcu.Load.{Bus, BootMode, load_payload_from_boot_media}
use mcu_runtime.Bootmcu.Soc.{Soc, DeviceId, HwRev, scu1_hwstrap1, secure_boot_enabled}
use mcu_runtime.Bootmcu.Auth.{
  set_auth_manifest, soc_manifest, populate_idevid, idevid_source, authorize_ca35_a2,
}
use mcu_runtime.Bootmcu.Ca35.{read_header, load_a2_image, load_ca35_payload_a2}
use mcu_runtime.Bootmcu.Boot.{
  Loaded, boot, bring_up, open_otp, open_and_start, authenticate, load, load_ca35,
  load_coprocessors, start, authenticate_and_start,
}
use mcu_runtime.Bootmcu.Boot.Secure.{IsChecked, boot-IsTrusted}
use mcu_runtime.Bootmcu.Boot.Unsecured.{authenticate_tolerates}
use mcu_runtime.Bootmcu.Boot.Unreleased.{OnlyReleases}
use mcu_runtime.Bootmcu.Boot.Released.{HaltsHeld, StartsFrom}
use mcu_runtime.Bootmcu.Service.{Service, rounds}
use mcu_runtime.Bootmcu.Service.Live.{IsLive, direct_rounds, rounds-direct}

abbrev Nothing : Type 0
Nothing = Unit {0}

-- The strap enables secure boot; a boot header stands at 0x100.
abbrev word : ℕ → ℕ
word a =
    if a == scu1_hwstrap1
    then 0x20
    else if a == 0x100
    then 0xa35
    else if a == 0x104
    then 0x7dca0
    else if a == 0x108
    then 0
    else bit_xor 0xa35 0x7dca0

abbrev bus : Bus Bool
bus = record {
  rd32 = λ m a. word a;
  enable_4byte_addr = λ m. m;
  dma_read = λ flash_offset dst len m. (m, false);
  load_raw = λ flash_offset dst len m. m;
  emmc_copy = λ flash_offset dst len m. (m, false);
}

abbrev soc : Soc Bool Nothing Nothing
soc = record {
  wr32 = λ a value m. m;
  init = λ m. m;
  wdt_init = λ m. m;
  extrst_init = λ m. m;
  sli_init_f = λ m. m;
  sli_init_r = λ m. (m, true);
  early_crt_clock_select = λ m. m;
  apply_ibex_default_register_policy = λ m. m;
  sdrammc_init = λ m. (m, true);
  bring_up_dp = λ m. m;
  init_ufs_axi_path = λ m. m;
  init_pci_e2m = λ m. m;
  silicon_rev = λ m. (DeviceId.ast2750, HwRev.a2);
  detect = λ m. BootMode.other;
  otp_new = λ m. (m, some tt);
  with_ecc_enabled = λ on. tt;
  read_word = λ otp a m. some (if a == 0x62 then 0x8230 else 0x0400);
  read_bytes = λ otp a len m. some (replicate len 1);
  caliptra_start = 0;
  parse_for = λ hw m. some tt;
  image_slice = λ container id m. some (1 ∷ 2 ∷ []);
  find_image = λ container id. some (record { size = 0x1000 });
  image_addr = λ container id. some 0x100;
  hdr_id_soc_manifest = 3;
  id_soc_images_base = 0x1000;
  raw_a35_header_flash_offset = 0;
  raw_a35_header_magic = 0xa35;
  raw_a35_header_m77_magic = 0xa36;
  raw_a35_payload_flash_offset = 0x1000;
  copy32 = λ dst src len m. m;
  decompress = λ src len dst room m. (m, some len);
  is_rdy_for_rt = λ m. true;
  flow_status = λ m. 0;
  boot_status = λ m. 0;
  set_auth_manifest = λ bytes m. (m, true);
  max_tbs_size = 800;
  get_idev_ecc384_cert = λ tbs sig_r sig_s m. (m, some (1 ∷ []));
  populate_idev_ecc384_cert = λ cert m. (m, true);
  store_idevid_cert = λ cert m. m;
  authorize_and_stash = λ id size m. (m, some true);
  read_timer = λ m. (m, 5);
  feed_trng = λ words m. m;
  fw_info = λ m. m;
  enable_dram_access = λ size m. m;
  set_rvbar = λ entry m. m;
  init_ssp = λ addr size on m. m;
  init_tsp = λ addr size on m. m;
  release = λ m. true;
  enable_ssp = λ m. m;
  enable_tsp = λ m. m;
  ipc_new = λ m. m;
  try_recv = λ channel m. (m, some (3, replicate 32 0));
  send = λ channel id frame m. m;
}

secured : (m : Bool) → secure_boot_enabled bus m ≡ true
unfolding secure_boot_enabled
secured m = refl

abbrev IsHeld : Bool → Type 0
IsHeld m = m ≡ false

only : OnlyReleases bus soc IsHeld
only = record {
  wr32 = λ value m h. h;
  init = λ m h. h;
  wdt_init = λ m h. h;
  extrst_init = λ m h. h;
  sli_init_f = λ m h. h;
  sli_init_r = λ m h. h;
  early_crt_clock_select = λ m h. h;
  apply_ibex_default_register_policy = λ m h. h;
  sdrammc_init = λ m h. h;
  bring_up_dp = λ m h. h;
  init_ufs_axi_path = λ m h. h;
  init_pci_e2m = λ m h. h;
  otp_new = λ m h. h;
  set_auth_manifest = λ bytes m h. h;
  get_idev_ecc384_cert = λ tbs sig_r sig_s m h. h;
  populate_idev_ecc384_cert = λ cert m h. h;
  store_idevid_cert = λ cert m h. h;
  authorize_and_stash = λ id size m h. h;
  copy32 = λ dst src len l m h. h;
  decompress = λ src len dst room l m h. h;
  enable_4byte_addr = λ m h. h;
  dma_read = λ flash dst len l m h. h;
  load_raw = λ flash dst len l m h. h;
  emmc_copy = λ flash dst len l m h. h;
}

boot-IsTrusted_example :
    HaltsHeld bus soc IsHeld (boot bus soc false)
    ⊎ ((l : Loaded) × (m : Bool) × StartsFrom bus soc IsHeld (boot bus soc false) l m
        × IsChecked bus soc false l)
boot-IsTrusted_example = boot-IsTrusted bus soc secured IsHeld only false refl

-- The boot in that witness is of the second kind: it ends with the cores released.
released :
    Ends
      (boot bus soc false)
      true
      (record { entry = 0x83ffff60 + 0x7dca0; ssp = false; tsp = false })
unfolding boot bring_up open_and_start open_otp authenticate_and_start authenticate
    set_auth_manifest soc_manifest populate_idevid idevid_source secure_boot_enabled load load_ca35
    load_ca35_payload_a2 authorize_ca35_a2 load_a2_image read_header load_coprocessors
    load_payload_from_boot_media start
released = refl

-- The same board with the strap at 0, and with a Caliptra that does not answer.
abbrev open_bus : Bus Bool
open_bus = record bus { rd32 = λ m a. 0 }

abbrev deaf : Soc Bool Nothing Nothing
deaf = record soc { is_rdy_for_rt = λ m. false; otp_new = λ m. (m, none) }

unsecured : (m : Bool) → secure_boot_enabled open_bus m ≡ false
unfolding secure_boot_enabled
unsecured m = refl

authenticate_tolerates_example :
    ((open_otp open_bus deaf false).1 ≢ none)
    × ((authenticate open_bus deaf HwRev.a2 tt false).1 ≡ some tt)
    × ((authorize_ca35_a2 open_bus deaf 0x1000 false).1 ≡ true)
authenticate_tolerates_example =
    authenticate_tolerates open_bus deaf unsecured HwRev.a2 tt 0x1000 false

abbrev service : Service Bool
service = record { seed = 0x27000001; heartbeat = 0; queue = []; hw = true }

service-IsLive : IsLive bus soc service
service-IsLive = record {
  seeded = λ e. omega (arith, e);
  seed_u32 = omega arith;
  heartbeat_u32 = omega arith;
  drained = refl;
}

rounds-direct_example :
    (rounds bus soc 2 DeviceId.ast2750 HwRev.a2 service
      ≡ direct_rounds bus soc 2 DeviceId.ast2750 HwRev.a2 service)
    × IsLive bus soc (rounds bus soc 2 DeviceId.ast2750 HwRev.a2 service)
rounds-direct_example = rounds-direct bus soc 2 DeviceId.ast2750 HwRev.a2 service service-IsLive
