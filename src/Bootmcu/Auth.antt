-- ===== src/Bootmcu/Auth.antt =====
-- What the BootMCU asks of Caliptra before it releases a core
-- (app-rot/src/bin/rot_ast2700_bootmcu.rs). A failure halts the boot when secure boot is enabled.
pub mod Trusted
use mcu_runtime.Base.{
  ℕ, ◌+◌, ◌*◌, ◌/◌, ◌%◌, Bool, true, false, ◌||◌, not, if◌then◌else◌, ltb, ◌==◌, Option, none, some,
  ◌>>=◌, List,
}
use mcu_runtime.Bootmcu.Load.{Bus}
use mcu_runtime.Bootmcu.Soc.{Soc, HwRev, secure_boot_enabled}

-- `u16::swap_bytes`.
abbrev pub swap_bytes : ℕ → ℕ
swap_bytes n = n % 256 * 256 + n / 256

-- What `populate_idevid` reads from the OTP.
pub record IdevidSource : Type 0 where
  pub tbs : List ℕ
  pub sig_r : List ℕ
  pub sig_s : List ℕ

abbrev pub a2_ca35_fw_id : ℕ
a2_ca35_fw_id = 9

module _ {M F O : Type 0} (b : Bus M) (soc : Soc M F O) where
  -- `!secure_boot_enabled()`, the result of every failure.
  abbrev pub tolerated : M → M × Bool
  tolerated m = (m, not (secure_boot_enabled b m))

  -- The SoC manifest of the container in flash.
  unfoldable pub soc_manifest : HwRev → M → Option (List ℕ)
  soc_manifest hw m = do
    container ← soc.parse_for hw m
    soc.image_slice container soc.hdr_id_soc_manifest m

  unfoldable pub set_auth_manifest : HwRev → M → M × Bool
  unfolding soc_manifest
  set_auth_manifest hw m =
      if not (soc.is_rdy_for_rt m) then tolerated m else elim (soc_manifest hw m) [
        | none ↦ tolerated m
        | some manifest ↦
            let (m', ok) = soc.set_auth_manifest manifest m in
            if ok then (m', true) else tolerated m'
      ]

  -- `populate_idevid` up to the signature: the tag, the size, and the three reads. The size is at
  -- most 65535 + 4, so the sum does not overflow.
  unfoldable pub idevid_source : O → M → Option IdevidSource
  idevid_source otp m =
      let tbs_offset = soc.caliptra_start + 0x62 in
      let sign_offset = soc.caliptra_start + 0x262 in
      do
        tag ← soc.read_word otp tbs_offset m
        checked ← if tag == 0 || not (tag == 0x8230) then none else some tag
        len_word ← soc.read_word otp (tbs_offset + 1) m
        let tbs_size = swap_bytes len_word + 4
        fits ← if ltb soc.max_tbs_size tbs_size then none else some tbs_size
        tbs ← soc.read_bytes otp tbs_offset tbs_size m
        sig_r ← soc.read_bytes otp sign_offset 48 m
        sig_s ← soc.read_bytes otp (sign_offset + 0x18) 48 m
        some (record { tbs = tbs; sig_r = sig_r; sig_s = sig_s })

  unfoldable pub populate_idevid : O → M → M × Bool
  unfolding idevid_source
  populate_idevid otp m =
      if not (soc.is_rdy_for_rt m) then tolerated m else elim (idevid_source otp m) [
        | none ↦ tolerated m
        | some src ↦
            let (m1, cert) = soc.get_idev_ecc384_cert src.tbs src.sig_r src.sig_s m in
            elim cert [
              | none ↦ tolerated m1
              | some bytes ↦
                  let (m2, ok) = soc.populate_idev_ecc384_cert bytes m1 in
                  if ok then (soc.store_idevid_cert bytes m2, true) else tolerated m2
            ]
      ]

  unfoldable pub authorize_ca35_a2 : ℕ → M → M × Bool
  authorize_ca35_a2 image_size m =
      if not (soc.is_rdy_for_rt m)
      then tolerated m
      else let (m', r) = soc.authorize_and_stash a2_ca35_fw_id image_size m in
        elim r [
          | none ↦ tolerated m'
          | some authorized ↦ if authorized then (m', true) else tolerated m'
        ]
