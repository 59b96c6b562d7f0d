-- ===== src/Manifest/Validation/Sound.antt =====
-- What a validated manifest guarantees (app-rot/src/manifest/mod.rs).
use mcu_runtime.Base.{
  ℕ, ◌+◌, ◌≤◌, ◌<◌, ◌≡◌, ◌≢◌, ◌⊎◌, ◌↔◌, true, List, [], ◌∷◌, any, All, ok, err, arith,
}
use mcu_runtime.Base.Words.{IsU32}
use mcu_runtime.Manifest.{
  ProtectedRegion, ImageDescriptor, PlatformFirmwareManifest, contains_image,
}
use mcu_runtime.Manifest.Validation.{
  AntiRollbackPolicy, rollback_detected, check_svns, validate_anti_rollback, check_regions,
  check_images, check_pair, check_overlap, validate_manifest,
}

-- A region that is not empty, grants some access, and ends within 32 bits.
abbrev IsSoundRegion : ProtectedRegion → Type 0
IsSoundRegion r =
    (0 < r.size)
    × ((r.permissions.read ≡ true) ⊎ (r.permissions.write ≡ true) ⊎ (r.permissions.execute ≡ true))
    × IsU32 (r.offset + r.size)

-- The whole image lies in the region.
abbrev IsInside : ImageDescriptor → ProtectedRegion → Type 0
IsInside i r = (r.offset ≤ i.offset) × (i.offset + i.size ≤ r.offset + r.size)

-- The whole image lies in one of the regions.
abbrev IsCovered : ImageDescriptor → List ProtectedRegion → Type 0
IsCovered i [] = ⊥
IsCovered i (r ∷ rs) = IsInside i r ⊎ IsCovered i rs

-- An image that is not empty, ends within 32 bits, and lies in a protected region.
abbrev IsSoundImage : List ProtectedRegion → ImageDescriptor → Type 0
IsSoundImage regions i = (0 < i.size) × IsU32 (i.offset + i.size) × IsCovered i regions

abbrev Holds : ProtectedRegion → ℕ → Type 0
Holds r x = (r.offset ≤ x) × (x < r.offset + r.size)

-- No address lies in both regions.
abbrev IsApart : ProtectedRegion → ProtectedRegion → Type 0
IsApart a b = (x : ℕ) → Holds a x → Holds b x → ⊥

abbrev IsDisjoint : List ProtectedRegion → Type 0
IsDisjoint [] = Unit {0}
IsDisjoint (a ∷ rest) = All (IsApart a) rest × IsDisjoint rest

pub record IsSound (m : PlatformFirmwareManifest) : Type 0 where
  pub nonempty : m.images ≢ []
  pub regions : All IsSoundRegion m.protected_regions
  pub images : All (IsSoundImage m.protected_regions) m.images
  pub disjoint : IsDisjoint m.protected_regions

check_svns_iff :
    (p : AntiRollbackPolicy) (is : List ImageDescriptor)
    → ((check_svns p is ≡ ok tt) ↔ All (λ i. p.minimum_svn ≤ i.svn) is)
      × ((check_svns p is ≡ ok tt) ⊎ (check_svns p is ≡ err rollback_detected))
unfolding check_svns
check_svns_iff p [] = ground arith
check_svns_iff p (i ∷ is) = ground (arith, check_svns_iff p is)

check_regions_iff : (rs : List ProtectedRegion) → (check_regions rs ≡ ok tt) ↔ All IsSoundRegion rs
unfolding check_regions
check_regions_iff [] = ground arith
check_regions_iff (r ∷ rs) = ground (arith, check_regions_iff rs)

any-IsCovered :
    (i : ImageDescriptor) (rs : List ProtectedRegion)
    → IsU32 (i.offset + i.size)
    → All IsSoundRegion rs
    → (any (λ r. contains_image r i) rs ≡ true) ↔ IsCovered i rs
unfolding contains_image
any-IsCovered i [] u h = ground arith
any-IsCovered i (r ∷ rs) u h = ground (arith, any-IsCovered i rs u h.1)

check_images_iff :
    (rs : List ProtectedRegion) (is : List ImageDescriptor)
    → All IsSoundRegion rs
    → (check_images rs is ≡ ok tt) ↔ All (IsSoundImage rs) is
unfolding check_images
check_images_iff rs [] h = ground arith
check_images_iff rs (i ∷ is) h =
    ground
      (arith, λ (u : IsU32 (i.offset + i.size)). any-IsCovered i rs u h, check_images_iff rs is h)

IsApart-iff :
    (a b : ProtectedRegion)
    → IsSoundRegion a
    → IsSoundRegion b
    → ((b.offset + b.size ≤ a.offset) ⊎ (a.offset + a.size ≤ b.offset)) ↔ IsApart a b
IsApart-iff a b sa sb = (λ d x p q. ground arith, λ h. ground (arith, h a.offset, h b.offset))

check_pair_iff :
    (a : ProtectedRegion) (bs : List ProtectedRegion)
    → IsSoundRegion a
    → All IsSoundRegion bs
    → (check_pair a (a.offset + a.size) bs ≡ ok tt) ↔ All (IsApart a) bs
unfolding check_pair
check_pair_iff a [] sa h = ground arith
check_pair_iff a (b ∷ bs) sa h =
    let apart = IsApart-iff a b sa h.0 in
    let rest = check_pair_iff a bs sa h.1 in
    (
      λ e. (apart.0 (ground arith), rest.0 (ground arith)),
      λ p. ground (arith, apart.1 p.0, rest.1 p.1),
    )

check_overlap_iff :
    (rs : List ProtectedRegion) → All IsSoundRegion rs → (check_overlap rs ≡ ok tt) ↔ IsDisjoint rs
unfolding check_overlap
check_overlap_iff [] h = ground arith
check_overlap_iff (a ∷ rest) h =
    let pairs = check_pair_iff a rest h.0 h.1 in
    let others = check_overlap_iff rest h.1 in
    (
      λ e. (pairs.0 (ground arith), others.0 (ground arith)),
      λ p. ground (arith, pairs.1 p.0, others.1 p.1),
    )

-- A manifest that names an image passes exactly if the three phases pass.
phases_iff :
    (m : PlatformFirmwareManifest)
    → m.images ≢ []
    → (validate_manifest m ≡ ok tt) ↔ (
        (check_regions m.protected_regions ≡ ok tt)
        × (check_images m.protected_regions m.images ≡ ok tt)
        × (check_overlap m.protected_regions ≡ ok tt))
unfolding validate_manifest
phases_iff m n = ground arith

validated_images : (m : PlatformFirmwareManifest) → validate_manifest m ≡ ok tt → m.images ≢ []
unfolding validate_manifest
validated_images m e n = ground arith

-- `validate_manifest` accepts exactly the manifests that name an image, whose regions are not
-- empty, grant some access, end within 32 bits and share no address, and whose images are not
-- empty, end within 32 bits and lie each in one region.
pub validate_manifest_iff :
    (m : PlatformFirmwareManifest) → (validate_manifest m ≡ ok tt) ↔ IsSound m
validate_manifest_iff m = (
  λ e.
      let n = validated_images m e in
      let p = (phases_iff m n).0 e in
      let rs = (check_regions_iff m.protected_regions).0 p.0 in
      record {
        nonempty = n;
        regions = rs;
        images = (check_images_iff m.protected_regions m.images rs).0 p.1;
        disjoint = (check_overlap_iff m.protected_regions rs).0 p.2;
      },
  λ s. (phases_iff m s.nonempty).1 (
    (check_regions_iff m.protected_regions).1 s.regions,
    (check_images_iff m.protected_regions m.images s.regions).1 s.images,
    (check_overlap_iff m.protected_regions s.regions).1 s.disjoint,
  ),
)

-- The anti-rollback policy accepts a manifest exactly when no image has a security version
-- below the minimum; otherwise the error is `rollback_detected`.
pub validate_anti_rollback_iff :
    (m : PlatformFirmwareManifest) (p : AntiRollbackPolicy)
    → ((validate_anti_rollback m p ≡ ok tt) ↔ All (λ i. p.minimum_svn ≤ i.svn) m.images)
      × ((validate_anti_rollback m p ≡ ok tt)
          ⊎ (validate_anti_rollback m p ≡ err rollback_detected))
unfolding validate_anti_rollback
validate_anti_rollback_iff m p = check_svns_iff p m.images
