-- ===== src/Bootmcu/Auth/Trusted.antt =====
-- What Caliptra has accepted when a step of the boot passes
-- (app-rot/src/bin/rot_ast2700_bootmcu.rs).
use mcu_runtime.Base.{ℕ, ◌≡◌, ◌↔◌, inl, inr, true, Bool-cases, some, Option-cases, List, arith}
use mcu_runtime.Bootmcu.Load.{Bus}
use mcu_runtime.Bootmcu.Soc.{Soc, HwRev, secure_boot_enabled}
use mcu_runtime.Bootmcu.Auth.{
  IdevidSource, a2_ca35_fw_id, soc_manifest, set_auth_manifest, idevid_source, populate_idevid,
  authorize_ca35_a2,
}

module _ {M F O : Type 0} (b : Bus M) (soc : Soc M F O) where
  -- Caliptra has taken the SoC manifest of the container.
  pub record IsInstalled (hw : HwRev) (m : M) : Type 0 where
    pub ready : soc.is_rdy_for_rt m ≡ true
    pub manifest : List ℕ
    pub found : soc_manifest b soc hw m ≡ some manifest
    pub taken : (soc.set_auth_manifest manifest m).1 ≡ true

  -- Caliptra has made a certificate of what the OTP holds, and has taken it.
  pub record IsPopulated (otp : O) (m : M) : Type 0 where
    pub ready : soc.is_rdy_for_rt m ≡ true
    pub source : IdevidSource
    pub read : idevid_source b soc otp m ≡ some source
    pub cert : List ℕ
    pub made : (soc.get_idev_ecc384_cert source.tbs source.sig_r source.sig_s m).1 ≡ some cert
    pub taken :
        (soc.populate_idev_ecc384_cert cert
          (soc.get_idev_ecc384_cert source.tbs source.sig_r source.sig_s m).0).1
        ≡ true

  -- Caliptra has authorized the firmware of the CA35.
  pub record IsAuthorized (size : ℕ) (m : M) : Type 0 where
    pub ready : soc.is_rdy_for_rt m ≡ true
    pub answer : (soc.authorize_and_stash a2_ca35_fw_id size m).1 ≡ some true

  -- With secure boot, whatever state a failure leaves.
  module _ (secure : (m : M) → secure_boot_enabled b m ≡ true) where
    pub set_auth_manifest_iff :
        (hw : HwRev) (m : M) → ((set_auth_manifest b soc hw m).1 ≡ true) ↔ IsInstalled hw m
    unfolding set_auth_manifest
    set_auth_manifest_iff hw m = (
      λ h. elim (Bool-cases (soc.is_rdy_for_rt m)) [
        | inr f ↦ absurd (ground (arith, secure m))
        | inl r ↦ elim (Option-cases (soc_manifest b soc hw m)) [
          | inl e ↦ absurd (ground (arith, secure m))
          | inr (manifest, e) ↦ record {
            ready = r;
            manifest = manifest;
            found = e;
            taken = let s = secure (soc.set_auth_manifest manifest m).0 in ground arith;
          }
        ]
      ],
      λ i. let r = i.ready in let f = i.found in let t = i.taken in ground arith,
    )

    pub populate_idevid_iff :
        (otp : O) (m : M) → ((populate_idevid b soc otp m).1 ≡ true) ↔ IsPopulated otp m
    unfolding populate_idevid
    populate_idevid_iff otp m = (
      λ h. elim (Bool-cases (soc.is_rdy_for_rt m)) [
        | inr f ↦ absurd (ground (arith, secure m))
        | inl r ↦ elim (Option-cases (idevid_source b soc otp m)) [
          | inl e ↦ absurd (ground (arith, secure m))
          | inr (source, e) ↦
              let (m1, c) = soc.get_idev_ecc384_cert source.tbs source.sig_r source.sig_s m in
              elim (Option-cases c) [
                | inl q ↦ absurd (ground (arith, secure m1))
                | inr (cert, q) ↦ record {
                  ready = r;
                  source = source;
                  read = e;
                  cert = cert;
                  made = q;
                  taken = let s = secure (soc.populate_idev_ecc384_cert cert m1).0 in ground arith;
                }
              ]
        ]
      ],
      λ i. let r = i.ready in let f = i.read in let c = i.made in let t = i.taken in ground arith,
    )

    pub authorize_iff :
        (size : ℕ) (m : M) → ((authorize_ca35_a2 b soc size m).1 ≡ true) ↔ IsAuthorized size m
    unfolding authorize_ca35_a2
    authorize_iff size m =
        let s = secure (soc.authorize_and_stash a2_ca35_fw_id size m).0 in
        (
          λ h. elim (Bool-cases (soc.is_rdy_for_rt m)) [
            | inr f ↦ absurd (ground (arith, secure m))
            | inl r ↦ record { ready = r; answer = ground arith }
          ],
          λ i. let r = i.ready in let a = i.answer in ground arith,
        )
