-- ===== src/Bootmcu/Boot/Secure.antt =====
-- What stands behind a release of the cores (app-rot/src/bin/rot_ast2700_bootmcu.rs).
use mcu_runtime.Base.{
  ℕ, ◌≡◌, ◌≢◌, sym, ap, ◌∙◌, ◌⊎◌, inl, inr, true, false, if◌then◌else◌, Option, none, some, arith,
}
use mcu_runtime.Bootmcu.Halt.{
  Boot, ◌>>=◌, halt_unless, halt_none, Ends, bind-Ends, halt_unless-Ends,
}
use mcu_runtime.Bootmcu.Load.{Bus, BootMode}
use mcu_runtime.Bootmcu.Soc.{Soc, HwRev, secure_boot_enabled}
use mcu_runtime.Bootmcu.Auth.{set_auth_manifest, populate_idevid}
use mcu_runtime.Bootmcu.Auth.Trusted.{
  IsInstalled, IsPopulated, set_auth_manifest_iff, populate_idevid_iff,
}
use mcu_runtime.Bootmcu.Ca35.Header.{IsA2Payload, loaded-IsA2Payload}
use mcu_runtime.Bootmcu.Boot.{
  Loaded, bring_up, open_otp, open_and_start, authenticate, load, load_ca35, load_coprocessors,
  start, authenticate_and_start, boot,
}
use mcu_runtime.Bootmcu.Boot.Unreleased.{OnlyReleases}
use mcu_runtime.Bootmcu.Boot.Released.{HaltsHeld, StartsFrom, boot-ReleasesLast}

module _ {M F O : Type 0} (b : Bus M) (soc : Soc M F O) where
  -- From the state `m` behind the OTP on: Caliptra took the SoC manifest, then made and took the
  -- certificate, and on an A2 authorized the payload that the entry belongs to.
  pub record IsTrusted (hw : HwRev) (otp : O) (entry : ℕ) (m : M) : Type 0 where
    pub installed : IsInstalled b soc hw m
    pub populated : IsPopulated b soc otp (set_auth_manifest b soc hw m).0
    pub authorized :
        (hw ≢ HwRev.a2)
        ⊎ IsA2Payload b soc hw entry (populate_idevid b soc otp (set_auth_manifest b soc hw m).0).0

  -- What has been passed when the boot from `m` on ends with the payloads `l`.
  abbrev pub IsChecked : M → Loaded → Type 0
  IsChecked m l =
      (hw : HwRev) × (mode : BootMode) × (otp : O) × (m1 : M) × (m2 : M) × Ends (bring_up b soc m)
        m1 (hw, mode)
      × Ends (soc.otp_new m1) m2 otp
      × IsTrusted hw otp l.entry m2

  load_coprocessors-entry :
      (mode : BootMode) (entry : ℕ) (m m' : M) (l : Loaded)
      → Ends (load_coprocessors b soc mode entry m) m' l
      → l.entry ≡ entry
  unfolding load_coprocessors
  load_coprocessors-entry mode entry m m' l h =
      sym (ap (λ q. elim q.1 [ none ↦ entry | some r ↦ r.entry ]) h)

  module _ (secure : (m : M) → secure_boot_enabled b m ≡ true) where
    -- With secure boot, there is no way around the driver's own initialisation.
    opened-Ends :
        (m m' : M) (otp : O) → Ends (open_otp b soc m) m' otp → Ends (soc.otp_new m) m' otp
    unfolding open_otp
    opened-Ends m m' otp h = still (soc.otp_new m) m' otp h
      where
        still :
            (q : M × Option O) (m' : M) (otp : O)
            → Ends
                (let (m1, r) = q in
                  elim r [
                    | some o ↦ (m1, some o)
                    | none ↦ (
                      m1,
                      if secure_boot_enabled b m1 then none else some (soc.with_ecc_enabled false),
                    )
                  ])
                m'
                otp
            → Ends q m' otp
        still (m1, some o) m' otp h = h
        still (m1, none) m' otp h =
            let s = secure m1 in let q = ap (λ q. q.1) h in absurd (ground arith)

    load_ca35-IsA2Payload :
        (hw : HwRev) (mode : BootMode) (m m' : M) (entry : ℕ)
        → Ends (load_ca35 b soc hw mode m) m' entry
        → (hw ≢ HwRev.a2) ⊎ IsA2Payload b soc hw entry m
    unfolding load_ca35
    load_ca35-IsA2Payload HwRev.a1 mode m m' entry h = inl (ground arith)
    load_ca35-IsA2Payload HwRev.unknown mode m m' entry h = inl (ground arith)
    load_ca35-IsA2Payload HwRev.a2 mode m m' entry h =
        inr (loaded-IsA2Payload b soc secure HwRev.a2 entry m (ap (λ q. q.1) h))

    authenticate-Ends :
        (hw : HwRev) (otp : O) (m m' : M) (x : Unit {0})
        → Ends (authenticate b soc hw otp m) m' x
        → ((set_auth_manifest b soc hw m).1 ≡ true)
          × (populate_idevid b soc otp (set_auth_manifest b soc hw m).0 ≡ (m', true))
    unfolding authenticate
    authenticate-Ends hw otp m m' x h =
        let (x1, m1, e1, h1) =
          bind-Ends (halt_unless (set_auth_manifest b soc hw))
            (λ _. halt_unless (populate_idevid b soc otp)) m m' x h in
        let s1 = halt_unless-Ends (set_auth_manifest b soc hw) m m1 x1 e1 in
        let s2 = halt_unless-Ends (populate_idevid b soc otp) m1 m' x h1 in
        let q1 : (set_auth_manifest b soc hw m).0 ≡ m1 = ap (λ q. q.0) s1 in
        (ap (λ q. q.1) s1, ap (λ m. populate_idevid b soc otp m) q1 ∙ s2)

    load-IsA2Payload :
        (hw : HwRev) (mode : BootMode) (m m' : M) (l : Loaded)
        → Ends (load b soc hw mode m) m' l
        → (hw ≢ HwRev.a2) ⊎ IsA2Payload b soc hw l.entry m
    unfolding load
    load-IsA2Payload hw mode m m' l h =
        let (entry, m1, e1, h1) =
          bind-Ends (load_ca35 b soc hw mode) (load_coprocessors b soc mode) m m' l h in
        rw (load_coprocessors-entry mode entry m1 m' l h1)
          (load_ca35-IsA2Payload hw mode m m1 entry e1)

    authenticated-IsTrusted :
        (hw : HwRev) (mode : BootMode) (otp : O) (m m' : M) (l : Loaded)
        → Ends (authenticate_and_start b soc hw mode otp m) m' l
        → IsTrusted hw otp l.entry m
    unfolding authenticate_and_start
    authenticated-IsTrusted hw mode otp m m' l h =
        let finish : Loaded → Boot M Loaded = λ l m. (start b soc l m, some l) in
        let (x, m1, e1, h1) =
          bind-Ends (authenticate b soc hw otp) (λ _. load b soc hw mode >>= finish) m m' l h in
        let (l', m2, e2, h2) = bind-Ends (load b soc hw mode) finish m1 m' l h1 in
        let (s1, s2) = authenticate-Ends hw otp m m1 x e1 in
        let same : l' ≡ l = ap (λ q. elim q.1 [ none ↦ l' | some r ↦ r ]) h2 in
        let payload = load-IsA2Payload hw mode m1 m2 l' e2 in
        record {
          installed = (set_auth_manifest_iff b soc secure hw m).0 s1;
          populated =
              (populate_idevid_iff b soc secure otp (set_auth_manifest b soc hw m).0).0
                (ap (λ q. q.1) s2);
          authorized = rw s2 (rw same at payload);
        }

    ended-IsChecked : (m m' : M) (l : Loaded) → Ends (boot b soc m) m' l → IsChecked m l
    unfolding boot open_and_start
    ended-IsChecked m m' l h =
        let ((hw, mode), m1, e1, h1) = bind-Ends (bring_up b soc) (open_and_start b soc) m m' l h in
        let (otp, m2, e2, h2) =
          bind-Ends (halt_none (open_otp b soc)) (authenticate_and_start b soc hw mode) m1 m' l
            h1 in
        (
          hw,
          mode,
          otp,
          m1,
          m2,
          e1,
          opened-Ends m1 m2 otp e2,
          authenticated-IsTrusted hw mode otp m2 m' l h2,
        )

    -- On a part on which only `release` and the calls behind it take cores out of reset, with secure
    -- boot enabled throughout, a boot that begins with the cores in reset either halts with the
    -- cores in reset, or releases them in its last step, which begins with the cores in reset. In the
    -- second case an OTP driver was opened, Caliptra had taken the SoC manifest of the container, had
    -- made and taken the device's certificate, and, on an A2, had answered that the firmware with
    -- the number of the CA35 and the size in the container is authorized, where the header of that
    -- firmware leads to the entry that the CA35 starts from. Whether the payload in memory is what
    -- Caliptra has hashed is not stated.
    pub boot-IsTrusted :
        (IsHeld : M → Type 0)
        → OnlyReleases b soc IsHeld
        → (m : M) → IsHeld m
        → HaltsHeld b soc IsHeld (boot b soc m)
          ⊎ ((l : Loaded) × (m' : M) × StartsFrom b soc IsHeld (boot b soc m) l m' × IsChecked m l)
    boot-IsTrusted IsHeld only m held = elim (boot-ReleasesLast b soc IsHeld only m held) [
      | inl halted ↦ inl halted
      | inr (l, m', s) ↦ inr (l, m', s, ended-IsChecked m (start b soc l m') l s.1)
    ]
