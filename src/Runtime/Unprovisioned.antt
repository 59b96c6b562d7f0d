-- ===== src/Runtime/Unprovisioned.antt =====
-- The verification of the event loop (app-rot/src/bin/rot_ast1060.rs) with its engine, and the firmware
-- as it stands, whose manifest names no image and which has no key material.
use mcu_runtime.Base.{Bool, true, false, if◌then◌else◌, List, [], ◌∷◌, Result, ok, err}
use mcu_runtime.Flash.{Slot}
use mcu_runtime.Manifest.{PlatformFirmwareManifest, ImageDescriptor}
use mcu_runtime.Manifest.Validation.{AntiRollbackPolicy}
use mcu_runtime.Filter.{SpiFilterPolicy, unprovisioned_bypass, from_manifest}
use mcu_runtime.Verify.{Platform, ImageVerifier, verify_manifest_or_unprovisioned}
use mcu_runtime.Pfr.{EventRecord}
use mcu_runtime.Runtime.Board.{BoardTask, board_turns}

abbrev pub manifest : PlatformFirmwareManifest
manifest = record { version = 0; protected_regions = []; images = [] }

abbrev pub verifier : ImageVerifier
verifier = record { image_buf = 4096; digest_buf = 64 }

abbrev pub rollback : AntiRollbackPolicy
rollback = record { minimum_svn = 0 }

abbrev is_ok : {A E : Type 0} → Result A E → Bool
is_ok (ok _) = true
is_ok (err _) = false

-- `!result.is_err()` in a round that verifies the images of a manifest.
unfoldable pub is_verified : {F C : Type 0} → Platform F C → PlatformFirmwareManifest → Bool
unfolding verify_manifest_or_unprovisioned
is_verified p m = is_ok (verify_manifest_or_unprovisioned p verifier Slot.active m rollback)

abbrev no_images : List ImageDescriptor → Bool
no_images [] = true
no_images (_ ∷ _) = false

-- The filter policy of a round that releases the platform.
unfoldable pub filter_policy : PlatformFirmwareManifest → SpiFilterPolicy
unfolding unprovisioned_bypass from_manifest
filter_policy m = if no_images m.images then unprovisioned_bypass else from_manifest m

abbrev rounds_of : Bool → List (List EventRecord) → List (Bool × List EventRecord)
rounds_of verified [] = []
rounds_of verified (rs ∷ sent) = (verified, rs) ∷ rounds_of verified sent

-- Rounds of the loop, each with the records that other tasks have sent before it; the images are
-- verified with the platform `p` and the manifest `m` in every round that verifies, and the policy of
-- `m` is applied.
unfoldable pub verified_turns :
    {F C : Type 0}
    → Platform F C
    → PlatformFirmwareManifest
    → List (List EventRecord)
    → BoardTask
    → BoardTask
unfolding is_verified filter_policy
verified_turns p m sent s = board_turns (filter_policy m) (rounds_of (is_verified p m) sent) s
