-- ===== src/Tests/Mailbox.antt =====
-- A round of the loop of the BootMCU (app-rot/src/bin/rot_ast2700_bootmcu.rs) with a request in the
-- mailbox. The hardware keeps the frames that are sent.
use mcu_runtime.Base.{
  ℕ, ◌≡◌, refl, true, false, if◌then◌else◌, ◌==◌, some, List, [], ◌∷◌, ◌++◌, replicate, arith,
}
use mcu_runtime.Ipc.{Payload, Envelope}
use mcu_runtime.Ipc.Encode.Bytes.{IsStatus, IsEnvelope}
use mcu_runtime.Bootmcu.Load.{Bus, BootMode}
use mcu_runtime.Bootmcu.Soc.{Soc, DeviceId, HwRev, secure_boot_enabled}
use mcu_runtime.Bootmcu.Reply.{framed}
use mcu_runtime.Bootmcu.Service.{
  Service, service_caliptra, entropy_words, rot_status, pack_silicon_rev, round,
}
use mcu_runtime.Bootmcu.Service.Live.{IsLive}
use mcu_runtime.Bootmcu.Service.Answered.{Served, round-Served}

abbrev Sent : Type 0
Sent = List (List ℕ)

abbrev asks : Envelope
asks = record { seq = 9; payload = Payload.get_rot_status }

abbrev bus : Bus Sent
bus = record {
  rd32 = λ m a. 0;
  enable_4byte_addr = λ m. m;
  dma_read = λ flash_offset dst len m. (m, false);
  load_raw = λ flash_offset dst len m. m;
  emmc_copy = λ flash_offset dst len m. (m, false);
}

abbrev soc : Soc Sent (Unit {0}) (Unit {0})
soc = record {
  wr32 = λ a value m. m;
  init = λ m. m;
  wdt_init = λ m. m;
  extrst_init = λ m. m;
  sli_init_f = λ m. m;
  sli_init_r = λ m. (m, true);
  early_crt_clock_select = λ m. m;
  apply_ibex_default_register_policy = λ m. m;
  sdrammc_init = λ m. (m, true);
  bring_up_dp = λ m. m;
  init_ufs_axi_path = λ m. m;
  init_pci_e2m = λ m. m;
  silicon_rev = λ m. (DeviceId.ast2750, HwRev.a2);
  detect = λ m. BootMode.other;
  otp_new = λ m. (m, some tt);
  with_ecc_enabled = λ on. tt;
  read_word = λ otp a m. some (if a == 0x62 then 0x8230 else 0x0400);
  read_bytes = λ otp a len m. some (replicate len 1);
  caliptra_start = 0;
  parse_for = λ hw m. some tt;
  image_slice = λ container id m. some (1 ∷ 2 ∷ []);
  find_image = λ container id. some (record { size = 0x1000 });
  image_addr = λ container id. some 0x100;
  hdr_id_soc_manifest = 3;
  id_soc_images_base = 0x1000;
  raw_a35_header_flash_offset = 0;
  raw_a35_header_magic = 0xa35;
  raw_a35_header_m77_magic = 0xa36;
  raw_a35_payload_flash_offset = 0x1000;
  copy32 = λ dst src len m. m;
  decompress = λ src len dst room m. (m, some len);
  is_rdy_for_rt = λ m. true;
  flow_status = λ m. 0;
  boot_status = λ m. 0;
  set_auth_manifest = λ bytes m. (m, true);
  max_tbs_size = 800;
  get_idev_ecc384_cert = λ tbs sig_r sig_s m. (m, some (1 ∷ []));
  populate_idev_ecc384_cert = λ cert m. (m, true);
  store_idevid_cert = λ cert m. m;
  authorize_and_stash = λ id size m. (m, some true);
  read_timer = λ m. (m, 5);
  feed_trng = λ words m. m;
  fw_info = λ m. m;
  enable_dram_access = λ size m. m;
  set_rvbar = λ entry m. m;
  init_ssp = λ addr size on m. m;
  init_tsp = λ addr size on m. m;
  release = λ m. m;
  enable_ssp = λ m. m;
  enable_tsp = λ m. m;
  ipc_new = λ m. m;
  try_recv = λ channel m. (m, some (5, framed asks []));
  send = λ channel id frame m. m ++ (frame ∷ []);
}

abbrev service : Service Sent
service = record { seed = 0x27000001; heartbeat = 0; queue = []; hw = [] }

service-IsLive : IsLive bus soc service
service-IsLive = record {
  seeded = λ e. omega (arith, e);
  seed_u32 = omega arith;
  heartbeat_u32 = omega arith;
  drained = refl;
}

rot_status-IsStatus : IsStatus (rot_status bus soc DeviceId.ast2750 HwRev.a2 [])
unfolding rot_status pack_silicon_rev secure_boot_enabled
rot_status-IsStatus = record { silicon = omega arith; flow = omega arith; boot = omega arith }

asks-IsEnvelope : IsEnvelope asks
asks-IsEnvelope = record { seq = omega arith; payload = tt }

arrives :
    soc.try_recv 1 (service_caliptra bus soc service.seed service.hw).0
    ≡ ([], some (5, framed asks []))
unfolding service_caliptra entropy_words
arrives = refl

round-Served_example :
    Served bus soc DeviceId.ast2750 HwRev.a2 service
      (round bus soc DeviceId.ast2750 HwRev.a2 service)
      []
      5
      asks
round-Served_example =
    round-Served bus soc DeviceId.ast2750 HwRev.a2 service [] 5 asks [] service-IsLive
      rot_status-IsStatus asks-IsEnvelope arrives
