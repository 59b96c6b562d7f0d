-- ===== src/Bootmcu/Boot/Unsecured.antt =====
-- Boots of boards without secure boot (app-rot/src/bin/rot_ast2700_bootmcu.rs).
use mcu_runtime.Base.{
  ℕ, ◌≡◌, ◌≢◌, true, false, Bool-cases, none, some, Option-cases, inl, inr, arith,
}
use mcu_runtime.Bootmcu.Halt.{both_pass}
use mcu_runtime.Bootmcu.Load.{Bus}
use mcu_runtime.Bootmcu.Soc.{Soc, HwRev, secure_boot_enabled}
use mcu_runtime.Bootmcu.Auth.{
  a2_ca35_fw_id, soc_manifest, idevid_source, set_auth_manifest, populate_idevid, authorize_ca35_a2,
}
use mcu_runtime.Bootmcu.Boot.{open_otp, authenticate}

module _ {M F O : Type 0} (b : Bus M) (soc : Soc M F O) where
  module _ (unsecured : (m : M) → secure_boot_enabled b m ≡ false) where
    set_auth_manifest-passes : (hw : HwRev) (m : M) → (set_auth_manifest b soc hw m).1 ≡ true
    unfolding set_auth_manifest
    set_auth_manifest-passes hw m = elim (Bool-cases (soc.is_rdy_for_rt m)) [
      | inr f ↦ ground (arith, unsecured m)
      | inl r ↦ elim (Option-cases (soc_manifest b soc hw m)) [
        | inl e ↦ ground (arith, unsecured m)
        | inr (manifest, e) ↦ let u = unsecured (soc.set_auth_manifest manifest m).0 in ground arith
      ]
    ]

    populate_idevid-passes : (otp : O) (m : M) → (populate_idevid b soc otp m).1 ≡ true
    unfolding populate_idevid
    populate_idevid-passes otp m = elim (Bool-cases (soc.is_rdy_for_rt m)) [
      | inr f ↦ ground (arith, unsecured m)
      | inl r ↦ elim (Option-cases (idevid_source b soc otp m)) [
        | inl e ↦ ground (arith, unsecured m)
        | inr (src, e) ↦
            let (m1, c) = soc.get_idev_ecc384_cert src.tbs src.sig_r src.sig_s m in
            elim (Option-cases c) [
              | inl q ↦ ground (arith, unsecured m1)
              | inr (cert, q) ↦
                  let u = unsecured (soc.populate_idev_ecc384_cert cert m1).0 in ground arith
            ]
      ]
    ]

    authorize-passes : (size : ℕ) (m : M) → (authorize_ca35_a2 b soc size m).1 ≡ true
    unfolding authorize_ca35_a2
    authorize-passes size m =
        let u = unsecured (soc.authorize_and_stash a2_ca35_fw_id size m).0 in
        ground (arith, unsecured m)

    open_otp-passes : (m : M) → (open_otp b soc m).1 ≢ none
    unfolding open_otp
    open_otp-passes m = let u = unsecured (soc.otp_new m).0 in ground arith

    -- Where secure boot is off in every state, nothing that the OTP or Caliptra answers halts the boot:
    -- there is a driver of the OTP, the two checks pass, and a payload of whatever size counts as
    -- authorized.
    pub authenticate_tolerates :
        (hw : HwRev) (otp : O) (size : ℕ) (m : M)
        → ((open_otp b soc m).1 ≢ none)
          × ((authenticate b soc hw otp m).1 ≡ some tt)
          × ((authorize_ca35_a2 b soc size m).1 ≡ true)
    unfolding authenticate
    authenticate_tolerates hw otp size m =
        let a = set_auth_manifest-passes hw m in
        let p = populate_idevid-passes otp (set_auth_manifest b soc hw m).0 in
        (
          open_otp-passes m,
          both_pass (set_auth_manifest b soc hw) (populate_idevid b soc otp) m a p,
          authorize-passes size m,
        )
