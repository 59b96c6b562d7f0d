-- ===== src/Verify.antt =====
-- The image verification engine (app-rot/src/verify.rs). The flash reader, the hasher, the
-- signature verifier and the provider of material are parameters, as its type parameters are. The
-- buffers of `ImageVerifier` are overwritten before they are read, so only their sizes are kept.
pub mod Genuine
use mcu_runtime.Base.{
  ℕ, Bool, true, false, ◌&&◌, ◌||◌, not, if◌then◌else◌, ltb, ◌==◌, Option, none, some, List, [],
  ◌∷◌, length, Result, ok, err,
}
use mcu_runtime.Flash.{Slot}
use mcu_runtime.Manifest.{
  HashAlgorithm, SignatureAlgorithm, digest_len, PlatformFirmwareManifest, ImageDescriptor,
  VerificationTask, task_from, VerificationOutcome, hash_mismatch, signature_mismatch,
}
use mcu_runtime.Manifest.Validation.{
  ManifestError, AntiRollbackPolicy, validate_manifest, validate_anti_rollback,
}

pub record VerificationMaterial : Type 0 where
  pub expected_digest : List ℕ
  pub signature : List ℕ
  pub public_key : List ℕ

-- What the engine calls: `FlashReader::read` of so many bytes at an offset, `Hasher::digest` with
-- the bytes that it writes to `out` (`self.digest[..digest_len]`), `SignatureVerifier::verify`, and `material_for`.
pub record Platform (F C : Type 0) : Type 0 where
  pub read : Slot → ℕ → ℕ → Result (List ℕ) F
  pub digest : HashAlgorithm → List ℕ → Result (List ℕ) C
  pub verify : SignatureAlgorithm → List ℕ → List ℕ → List ℕ → Result (Unit {0}) C
  pub material_for : VerificationTask → Option VerificationMaterial

-- The sizes of the two buffers.
pub record ImageVerifier : Type 0 where
  pub image_buf : ℕ
  pub digest_buf : ℕ

pub data VerificationError (F C : Type 0) : Type 0 where
  manifest : ManifestError → VerificationError F C
  image_too_large digest_buffer_too_small : VerificationError F C
  invalid_material key_not_found : VerificationError F C
  flash : F → VerificationError F C
  crypto : C → VerificationError F C
  outcome : VerificationOutcome → VerificationError F C

-- `NoVerificationMaterial::material_for`.
unfoldable pub no_material : VerificationTask → Option VerificationMaterial
no_material task = none

-- Equality of byte slices.
abbrev pub same_bytes : List ℕ → List ℕ → Bool
same_bytes [] [] = true
same_bytes (x ∷ xs) (y ∷ ys) = x == y && same_bytes xs ys
same_bytes _ _ = false

abbrev no_images : List ImageDescriptor → Bool
no_images [] = true
no_images (_ ∷ _) = false

module _ {F C : Type 0} (p : Platform F C) where
  abbrev Verified : Type 0
  Verified = Result (Unit {0}) (VerificationError F C)

  -- The end of `verify_task`: the digest, and the signature over it.
  unfoldable pub check_digest : VerificationTask → VerificationMaterial → List ℕ → Verified
  check_digest task m digest =
      if not (same_bytes digest m.expected_digest)
      then err (outcome hash_mismatch)
      else elim (p.verify task.signature digest m.signature m.public_key) [
        | ok _ ↦ ok tt
        | err _ ↦ err (outcome signature_mismatch)
      ]

  -- The middle of `verify_task`: the image is read and hashed. A backend's length is that of the
  -- algorithm, which `verify_task` has compared with the buffer; the code would panic on a longer one.
  unfoldable pub check_image : Slot → VerificationTask → VerificationMaterial → Verified
  unfolding check_digest
  check_image slot task m = elim (p.read slot task.offset task.size) [
    | err e ↦ err (flash e)
    | ok image ↦ elim (p.digest task.hash image) [
      | err e ↦ err (crypto e)
      | ok digest ↦ check_digest task m digest
    ]
  ]

  -- `usize` has 32 bits or more, so `usize::try_from` succeeds.
  unfoldable pub verify_task : ImageVerifier → Slot → VerificationTask → Verified
  unfolding check_image
  verify_task v slot task =
      if task.size == 0 || ltb v.image_buf task.size
      then err image_too_large
      else if ltb v.digest_buf (digest_len task.hash)
      then err digest_buffer_too_small
      else elim (p.material_for task) [
        | none ↦ err key_not_found
        | some m ↦
            if not (length m.expected_digest == digest_len task.hash)
            then err invalid_material
            else check_image slot task m
      ]

  -- The loop of `verify_manifest`.
  unfoldable pub verify_images : ImageVerifier → Slot → List ImageDescriptor → Verified
  unfolding verify_task task_from
  verify_images v slot [] = ok tt
  verify_images v slot (i ∷ is) = elim (verify_task v slot (task_from i)) [
    | err e ↦ err e
    | ok _ ↦ verify_images v slot is
  ]

  unfoldable pub verify_manifest :
      ImageVerifier → Slot → PlatformFirmwareManifest → AntiRollbackPolicy → Verified
  unfolding verify_images
  verify_manifest v slot m rollback = elim (validate_manifest m) [
    | err e ↦ err (manifest e)
    | ok _ ↦ elim (validate_anti_rollback m rollback) [
      | err e ↦ err (manifest e)
      | ok _ ↦ verify_images v slot m.images
    ]
  ]

  unfoldable pub verify_manifest_or_unprovisioned :
      ImageVerifier → Slot → PlatformFirmwareManifest → AntiRollbackPolicy → Verified
  unfolding verify_manifest
  verify_manifest_or_unprovisioned v slot m rollback =
      if no_images m.images then ok tt else verify_manifest v slot m rollback
