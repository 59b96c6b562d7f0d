-- ===== src/Manifest.antt =====
-- The manifest model and its validation (app-rot/src/manifest/mod.rs): the data types here, the
-- work queue in `Queue`, keys and attestation descriptors in `Keys`, validation in `Validation`.
pub mod Queue
pub mod Keys
pub mod Validation
use mcu_runtime.Base.{
  ℕ, ◌+◌, Bool, true, false, ◌&&◌, ◌||◌, not, leb, Option, none, some, List, length, get_elem?,
}
use mcu_runtime.Base.Words.{checked_add, saturating_add}
use mathlib.Core.Option

pub record RegionPermissions : Type 0 where
  pub read : Bool
  pub write : Bool
  pub execute : Bool

abbrev pub read_only : RegionPermissions
read_only = record { read = true; write = false; execute = false }

abbrev read_execute : RegionPermissions
read_execute = record { read = true; write = false; execute = true }

abbrev pub read_write : RegionPermissions
read_write = record { read = true; write = true; execute = false }

unfoldable pub is_any_set : RegionPermissions → Bool
is_any_set p = p.read || p.write || p.execute

pub data HashAlgorithm : Type 0 where
  sha256 sha384 sha512 : HashAlgorithm

unfoldable pub digest_len : HashAlgorithm → ℕ
digest_len sha256 = 32
digest_len sha384 = 48
digest_len sha512 = 64

pub data SignatureAlgorithm : Type 0 where
  ecdsa_p384 rsa2048 rsa3072 rsa4096 : SignatureAlgorithm

pub record ProtectedRegion : Type 0 where
  pub offset : ℕ
  pub size : ℕ
  pub permissions : RegionPermissions

pub record ImageDescriptor : Type 0 where
  pub offset : ℕ
  pub size : ℕ
  pub hash : HashAlgorithm
  pub signature : SignatureAlgorithm
  pub svn : ℕ

-- `ProtectedRegion::checked_end`, `ProtectedRegion::end` and `ImageDescriptor::checked_end`.
unfoldable pub region_end : ProtectedRegion → Option ℕ
region_end r = checked_add r.offset r.size

unfoldable saturating_end : ProtectedRegion → ℕ
saturating_end r = saturating_add r.offset r.size

unfoldable pub image_end : ImageDescriptor → Option ℕ
image_end i = checked_add i.offset i.size

-- `contains_image`: the match on the two ends.
abbrev within : ℕ → ℕ → Option ℕ → Option ℕ → Bool
within region image (some r_end) (some i_end) = leb region image && leb i_end r_end
within region image _ _ = false

unfoldable pub contains_image : ProtectedRegion → ImageDescriptor → Bool
unfolding region_end image_end
contains_image r i = within r.offset i.offset (region_end r) (image_end i)

pub record PlatformFirmwareManifest : Type 0 where
  pub version : ℕ
  pub protected_regions : List ProtectedRegion
  pub images : List ImageDescriptor

pub record VerificationTask : Type 0 where
  pub offset : ℕ
  pub size : ℕ
  pub hash : HashAlgorithm
  pub signature : SignatureAlgorithm
  pub svn : ℕ

-- `VerificationTask::from`.
unfoldable pub task_from : ImageDescriptor → VerificationTask
task_from i = record {
  offset = i.offset;
  size = i.size;
  hash = i.hash;
  signature = i.signature;
  svn = i.svn;
}

unfoldable verification_task : PlatformFirmwareManifest → ℕ → Option VerificationTask
unfolding task_from
verification_task m index = Option.map task_from (get_elem? m.images index)

unfoldable verification_task_count : PlatformFirmwareManifest → ℕ
verification_task_count m = length m.images

pub data KeyKind : Type 0 where
  root pfm afm recovery : KeyKind

pub record VerificationRequest : Type 0 where
  pub task : VerificationTask
  pub key_kind : KeyKind
  pub key_index : ℕ

pub data VerificationOutcome : Type 0 where
  passed hash_mismatch signature_mismatch : VerificationOutcome
  key_not_found rollback_detected invalid_descriptor : VerificationOutcome

unfoldable is_pass : VerificationOutcome → Bool
is_pass passed = true
is_pass _ = false

unfoldable is_fail : VerificationOutcome → Bool
unfolding is_pass
is_fail o = not (is_pass o)
