-- ===== src/Manifest/Validation.antt =====
-- Validation of a manifest and the anti-rollback policy (app-rot/src/manifest/mod.rs).
pub mod Sound
use mcu_runtime.Base.{
  ℕ, ◌+◌, ◌<◌, Bool, true, false, ◌&&◌, not, if◌then◌else◌, ltb, leb, ◌==◌, Option, none, some,
  is_none, List, [], ◌∷◌, any, Result, ok, err,
}
use mcu_runtime.Manifest.{
  is_any_set, ProtectedRegion, region_end, ImageDescriptor, image_end, contains_image,
  PlatformFirmwareManifest,
}

pub record AntiRollbackPolicy : Type 0 where
  pub minimum_svn : ℕ

unfoldable accepts : AntiRollbackPolicy → ℕ → Bool
accepts p svn = leb p.minimum_svn svn

pub data ManifestError : Type 0 where
  empty_images empty_protected_region empty_image empty_permissions : ManifestError
  region_overflow image_overflow overlapping_protected_regions : ManifestError
  image_outside_protected_region rollback_detected : ManifestError

abbrev Validated : Type 0
Validated = Result (Unit {0}) ManifestError

-- The loop of `validate_anti_rollback`.
unfoldable pub check_svns : AntiRollbackPolicy → List ImageDescriptor → Validated
unfolding accepts
check_svns p [] = ok tt
check_svns p (i ∷ is) = if not (accepts p i.svn) then err rollback_detected else check_svns p is

unfoldable pub validate_anti_rollback : PlatformFirmwareManifest → AntiRollbackPolicy → Validated
unfolding check_svns
validate_anti_rollback m p = check_svns p m.images

-- The first loop of `validate_manifest`.
unfoldable pub check_regions : List ProtectedRegion → Validated
unfolding is_any_set region_end
check_regions [] = ok tt
check_regions (r ∷ rs) =
    if r.size == 0
    then err empty_protected_region
    else if not (is_any_set r.permissions)
    then err empty_permissions
    else if is_none (region_end r)
    then err region_overflow
    else check_regions rs

-- The second loop, over the images, against all the regions.
unfoldable pub check_images : List ProtectedRegion → List ImageDescriptor → Validated
unfolding image_end contains_image
check_images regions [] = ok tt
check_images regions (i ∷ is) =
    if i.size == 0
    then err empty_image
    else if is_none (image_end i)
    then err image_overflow
    else if not (any (λ r. contains_image r i) regions)
    then err image_outside_protected_region
    else check_images regions is

-- The inner loop of the overlap check: region `a`, which ends at `a_end`, against those after it.
unfoldable pub check_pair : ProtectedRegion → ℕ → List ProtectedRegion → Validated
unfolding region_end
check_pair a a_end [] = ok tt
check_pair a a_end (b ∷ bs) = elim (region_end b) [
  | none ↦ err region_overflow
  | some b_end ↦
      if ltb a.offset b_end && ltb b.offset a_end
      then err overlapping_protected_regions
      else check_pair a a_end bs
]

-- The outer loop of the overlap check, on the regions from `i` on.
unfoldable pub check_overlap : List ProtectedRegion → Validated
unfolding region_end check_pair
check_overlap [] = ok tt
check_overlap (a ∷ rest) = elim (region_end a) [
  | none ↦ err region_overflow
  | some a_end ↦ elim (check_pair a a_end rest) [ ok _ ↦ check_overlap rest | err e ↦ err e ]
]

-- A loop that returned an error ends the function.
infixl 5 ◌>>◌
abbrev ◌>>◌ : Validated → Validated → Validated
ok _ >> k = k
err e >> k = err e

abbrev no_images : List ImageDescriptor → Bool
no_images [] = true
no_images (_ ∷ _) = false

unfoldable pub validate_manifest : PlatformFirmwareManifest → Validated
unfolding check_regions check_images check_overlap
validate_manifest m =
    if no_images m.images
    then err empty_images
    else (check_regions m.protected_regions
        >> check_images m.protected_regions m.images
        >> check_overlap m.protected_regions)
