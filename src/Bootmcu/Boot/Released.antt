-- ===== src/Bootmcu/Boot/Released.antt =====
-- The boot (app-rot/src/bin/rot_ast2700_bootmcu.rs) halts with the cores in reset, or releases them in
-- its last step.
use mcu_runtime.Base.{ℕ, ◌≡◌, refl, ◌⊎◌, inl, inr, Option, none, some, arith}
use mcu_runtime.Bootmcu.Halt.{Boot, ◌>>=◌, halt_unless, halt_none, modify, pure, ◌>>◌}
use mcu_runtime.Bootmcu.Load.{Bus, BootMode}
use mcu_runtime.Bootmcu.Soc.{Soc, HwRev}
use mcu_runtime.Bootmcu.Auth.{set_auth_manifest, populate_idevid}
use mcu_runtime.Bootmcu.Ca35.{read_a35_entry_addr, load_raw_a35}
use mcu_runtime.Bootmcu.Boot.{
  Loaded, raw_ssp_payload_flash_offset, raw_tsp_payload_flash_offset, ssp_load_addr, tsp_load_addr,
  m4_payload_size, bring_up, open_otp, open_and_start, authenticate, load, load_ca35,
  init_mac_rgmii_clk, load_coprocessors, start, authenticate_and_start, boot,
}
use mcu_runtime.Bootmcu.Boot.Unreleased.{
  Keeps, OnlyReleases, bind-Keeps, set_auth_manifest-Keeps, populate_idevid-Keeps,
  load_payload-Keeps, load_raw_a35-Keeps, load_ca35_payload_a2-Keeps,
}

module _ {M F O : Type 0} (b : Bus M) (soc : Soc M F O) (IsHeld : M → Type 0) where
  -- The boot has halted with the cores in reset.
  abbrev pub HaltsHeld : M × Option Loaded → Type 0
  HaltsHeld q = (q.1 ≡ none) × IsHeld q.0

  -- The boot has come to its end, from a last step that began with the cores in reset.
  abbrev pub StartsFrom : M × Option Loaded → Loaded → M → Type 0
  StartsFrom q l m = IsHeld m × (q ≡ (start b soc l m, some l))

  abbrev pub ReleasesLast : M × Option Loaded → Type 0
  ReleasesLast q = HaltsHeld q ⊎ ((l : Loaded) × (m : M) × StartsFrom q l m)

  bind-ReleasesLast :
      {A : Type 0} (p : Boot M A) (f : A → Boot M Loaded)
      → Keeps b soc IsHeld p
      → ((a : A) (m : M) → IsHeld m → ReleasesLast (f a m))
      → (m : M) → IsHeld m
      → ReleasesLast ((p >>= f) m)
  bind-ReleasesLast {A = A} p f h k m held = go (p m) (h m held)
    where
      go :
          (q : M × Option A)
          → IsHeld q.0
          → ReleasesLast (
              let (m', r) = q in
              let next : M × Option Loaded = elim r [ none ↦ (m', none) | some a ↦ f a m' ] in next)
      go (m', none) i = inl (refl, i)
      go (m', some a) i = k a m' i

  module _ (only : OnlyReleases b soc IsHeld) where
    abbrev load_at : BootMode → ℕ → Boot M ℕ
    load_at mode entry = halt_unless (load_raw_a35 b soc mode) >> pure entry

    load_at-Keeps : (mode : BootMode) (entry : ℕ) → Keeps b soc IsHeld (load_at mode entry)
    load_at-Keeps mode entry =
        bind-Keeps b soc IsHeld (halt_unless (load_raw_a35 b soc mode)) (λ _. pure entry)
          (load_raw_a35-Keeps b soc IsHeld only mode) (λ _ m h. h)

    load_fixed-Keeps :
        (mode : BootMode)
        → Keeps b soc IsHeld (halt_none (read_a35_entry_addr b soc) >>= load_at mode)
    unfolding read_a35_entry_addr
    load_fixed-Keeps mode =
        bind-Keeps b soc IsHeld (halt_none (read_a35_entry_addr b soc)) (load_at mode) (λ m h. h)
          (load_at-Keeps mode)

    load_ca35-Keeps : (hw : HwRev) (mode : BootMode) → Keeps b soc IsHeld (load_ca35 b soc hw mode)
    unfolding load_ca35
    load_ca35-Keeps HwRev.a2 mode m h = load_ca35_payload_a2-Keeps b soc IsHeld only HwRev.a2 m h
    load_ca35-Keeps HwRev.a1 mode m h = load_fixed-Keeps mode m h
    load_ca35-Keeps HwRev.unknown mode m h = load_fixed-Keeps mode m h

    load_coprocessors-Keeps :
        (mode : BootMode) (entry : ℕ) → Keeps b soc IsHeld (load_coprocessors b soc mode entry)
    unfolding load_coprocessors
    load_coprocessors-Keeps mode entry m h =
        let h1 =
          load_payload-Keeps b soc IsHeld only mode raw_ssp_payload_flash_offset ssp_load_addr
            m4_payload_size (omega arith) m h in
        load_payload-Keeps b soc IsHeld only mode raw_tsp_payload_flash_offset tsp_load_addr
          m4_payload_size (omega arith) _ h1

    load-Keeps : (hw : HwRev) (mode : BootMode) → Keeps b soc IsHeld (load b soc hw mode)
    unfolding load
    load-Keeps hw mode =
        bind-Keeps b soc IsHeld (load_ca35 b soc hw mode) (load_coprocessors b soc mode)
          (load_ca35-Keeps hw mode) (load_coprocessors-Keeps mode)

    authenticate-Keeps : (hw : HwRev) (otp : O) → Keeps b soc IsHeld (authenticate b soc hw otp)
    unfolding authenticate
    authenticate-Keeps hw otp =
        bind-Keeps b soc IsHeld (halt_unless (set_auth_manifest b soc hw))
          (λ _. halt_unless (populate_idevid b soc otp))
          (set_auth_manifest-Keeps b soc IsHeld only hw)
          (λ _. populate_idevid-Keeps b soc IsHeld only otp)

    open_otp-Keeps : Keeps b soc IsHeld (open_otp b soc)
    unfolding open_otp
    open_otp-Keeps m h = let k = only.otp_new m h in ground arith

    -- The end of `bring_up`, behind the memory and behind the SLI.
    abbrev after_dram : HwRev × BootMode → Boot M (HwRev × BootMode)
    after_dram found = do
      modify soc.bring_up_dp
      modify soc.init_ufs_axi_path
      modify soc.init_pci_e2m
      modify b.enable_4byte_addr
      pure found

    abbrev after_sli : HwRev × BootMode → Boot M (HwRev × BootMode)
    after_sli found = do
      modify soc.early_crt_clock_select
      modify (init_mac_rgmii_clk b soc)
      modify soc.apply_ibex_default_register_policy
      halt_unless soc.sdrammc_init
      after_dram found

    after_dram-Keeps : (found : HwRev × BootMode) → Keeps b soc IsHeld (after_dram found)
    after_dram-Keeps found m h =
        only.enable_4byte_addr _
          (only.init_pci_e2m _ (only.init_ufs_axi_path _ (only.bring_up_dp m h)))

    after_sli-Keeps : (found : HwRev × BootMode) → Keeps b soc IsHeld (after_sli found)
    after_sli-Keeps found m h =
        let clk = only.wr32 _ _ (only.early_crt_clock_select m h) in
        bind-Keeps b soc IsHeld (halt_unless soc.sdrammc_init) (λ _. after_dram found)
          only.sdrammc_init (λ _. after_dram-Keeps found) _
          (only.apply_ibex_default_register_policy _ clk)

    bring_up-Keeps : Keeps b soc IsHeld (bring_up b soc)
    unfolding bring_up
    bring_up-Keeps m h =
        let h1 = only.sli_init_f _ (only.extrst_init _ (only.wdt_init _ (only.init m h))) in
        let found : HwRev × BootMode = (
          (soc.silicon_rev (soc.init m)).1,
          soc.detect (soc.extrst_init (soc.wdt_init (soc.init m))),
        ) in
        bind-Keeps b soc IsHeld (halt_unless soc.sli_init_r) (λ _. after_sli found) only.sli_init_r
          (λ _. after_sli-Keeps found) _ h1

    abbrev finish : Loaded → Boot M Loaded
    finish l m = (start b soc l m, some l)

    authenticated-ReleasesLast :
        (hw : HwRev) (mode : BootMode) (otp : O) (m : M)
        → IsHeld m
        → ReleasesLast (authenticate_and_start b soc hw mode otp m)
    unfolding authenticate_and_start
    authenticated-ReleasesLast hw mode otp =
        bind-ReleasesLast (authenticate b soc hw otp) (λ _. load b soc hw mode >>= finish)
          (authenticate-Keeps hw otp)
          (λ _.
            bind-ReleasesLast (load b soc hw mode) finish (load-Keeps hw mode)
              (λ l m h. inr (l, m, (h, refl))))

    -- The cores are released in the last step of the boot, or not at all.
    pub boot-ReleasesLast : (m : M) → IsHeld m → ReleasesLast (boot b soc m)
    unfolding boot open_and_start
    boot-ReleasesLast =
        bind-ReleasesLast (bring_up b soc) (open_and_start b soc) bring_up-Keeps (λ (hw, mode).
          bind-ReleasesLast (halt_none (open_otp b soc)) (authenticate_and_start b soc hw mode)
            open_otp-Keeps (authenticated-ReleasesLast hw mode))
