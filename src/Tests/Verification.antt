-- ===== src/Tests/Verification.antt =====
-- The SPI filter policy and the verification engine at concrete values (app-rot/src/filter.rs,
-- app-rot/src/verify.rs).
use mcu_runtime.Base.{ℕ, ◌≡◌, refl, true, false, List, ◌↔◌, some, [], ◌∷◌, replicate, ok, arith}
use mcu_runtime.Flash.{Slot}
use mcu_runtime.Manifest.{
  HashAlgorithm, SignatureAlgorithm, read_only, read_write, ProtectedRegion, ImageDescriptor,
  PlatformFirmwareManifest, digest_len,
}
use mcu_runtime.Manifest.Validation.{AntiRollbackPolicy, validate_manifest, validate_anti_rollback}
use mcu_runtime.Filter.{from_manifest}
use mcu_runtime.Filter.Pages.{IsDisabled, IsProtected, from_manifest_iff}
use mcu_runtime.Verify.{VerificationMaterial, Platform, ImageVerifier, verify_manifest}
use mcu_runtime.Pfr.{EventRecord}
use mcu_runtime.Runtime.{main_task}
use mcu_runtime.Runtime.Board.{BoardTask}
use mcu_runtime.Verify.Genuine.{IsVerified, verify_manifest_iff}

abbrev boot_region : ProtectedRegion
boot_region = record { offset = 0x4000; size = 0x4001; permissions = read_only }

abbrev data_region : ProtectedRegion
data_region = record { offset = 0x10000; size = 0x4000; permissions = read_write }

abbrev image : ImageDescriptor
image = record {
  offset = 0x4000;
  size = 4;
  hash = HashAlgorithm.sha256;
  signature = SignatureAlgorithm.ecdsa_p384;
  svn = 2;
}

abbrev manifest : PlatformFirmwareManifest
manifest = record {
  version = 1;
  protected_regions = boot_region ∷ data_region ∷ [];
  images = image ∷ [];
}

-- The region of 0x4001 bytes from 0x4000 covers the pages 1 and 2.
boot_pages : (from_manifest manifest).write_disable ≡ 6 ∷ replicate 15 0
unfolding from_manifest
boot_pages = refl

from_manifest_iff_example :
    IsDisabled (from_manifest manifest).write_disable 2
    ↔ IsProtected 2 (boot_region ∷ data_region ∷ [])
from_manifest_iff_example = from_manifest_iff manifest 2 (omega arith)

abbrev material : VerificationMaterial
material = record { expected_digest = replicate 32 7; signature = 1 ∷ []; public_key = 2 ∷ [] }

-- A platform whose flash is filled with ones, and which accepts every signature.
abbrev platform : Platform ℕ ℕ
platform = record {
  read = λ slot offset len. ok (replicate len 1);
  digest = λ algorithm bytes. ok (replicate 32 7);
  verify = λ algorithm digest signature key. ok tt;
  material_for = λ task. some material;
}

abbrev verifier : ImageVerifier
verifier = record { image_buf = 4096; digest_buf = 64 }

abbrev rollback : AntiRollbackPolicy
rollback = record { minimum_svn = 0 }

image_passes : verify_manifest platform verifier Slot.active manifest rollback ≡ ok tt
unfolding verify_manifest validate_manifest validate_anti_rollback digest_len
image_passes = refl

verify_manifest_iff_example :
    (verify_manifest platform verifier Slot.active manifest rollback ≡ ok tt)
    ↔ IsVerified platform verifier Slot.active manifest rollback
verify_manifest_iff_example = verify_manifest_iff platform verifier Slot.active manifest rollback

-- A board whose target is in reset, with the first record of the loop still to come.
abbrev idle : BoardTask
idle = record {
  task = main_task;
  board = record {
    platform = record {
      sgpo = λ pin. false;
      flash_power_l2 = true;
      flash_power_l3 = true;
      bmc_srst = false;
      bmc_extrst = false;
      first_release = true;
      scu_spim_mode_ctrl = 0xf000;
    };
    calls = [];
  };
}

abbrev sent : List (List EventRecord)
sent = [] ∷ [] ∷ [] ∷ [] ∷ []
