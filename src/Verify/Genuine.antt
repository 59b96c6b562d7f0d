-- ===== src/Verify/Genuine.antt =====
-- What a passed verification means (app-rot/src/verify.rs).
use mcu_runtime.Base.{
  ℕ, ◌≤◌, ◌<◌, ◌≡◌, refl, ap, ◌∙◌, ◌↔◌, ◌⊎◌, inl, inr, true, some, List, [], ◌∷◌, length, All, ok,
  Result-cases, Option-cases, arith,
}
use mcu_runtime.Flash.{Slot}
use mcu_runtime.Manifest.{
  digest_len, PlatformFirmwareManifest, ImageDescriptor, VerificationTask, task_from,
}
use mcu_runtime.Manifest.Validation.{AntiRollbackPolicy, validate_manifest, validate_anti_rollback}
use mcu_runtime.Manifest.Validation.Sound.{
  IsSound, validate_manifest_iff, validate_anti_rollback_iff,
}
use mcu_runtime.Verify.{
  VerificationMaterial, Platform, ImageVerifier, no_material, same_bytes, check_digest, check_image,
  verify_task, verify_images, verify_manifest, verify_manifest_or_unprovisioned,
}

same_bytes_iff : (xs ys : List ℕ) → (same_bytes xs ys ≡ true) ↔ (xs ≡ ys)
same_bytes_iff [] [] = ground arith
same_bytes_iff [] (y ∷ ys) = ground arith
same_bytes_iff (x ∷ xs) [] = ground arith
same_bytes_iff (x ∷ xs) (y ∷ ys) = ground (arith, same_bytes_iff xs ys)

module _ {F C : Type 0} (p : Platform F C) where
  -- The bytes in flash have the expected digest, and the verifier accepts the signature over it.
  pub record IsSigned (slot : Slot) (task : VerificationTask) (m : VerificationMaterial)
      : Type 0 where
    pub image : List ℕ
    pub stored : p.read slot task.offset task.size ≡ ok image
    pub hashed : p.digest task.hash image ≡ ok m.expected_digest
    pub signed : p.verify task.signature m.expected_digest m.signature m.public_key ≡ ok tt

  -- The task fits the buffers, there is material for it with a digest of the right length, and the
  -- image is signed with it.
  pub record IsGenuine (v : ImageVerifier) (slot : Slot) (task : VerificationTask) : Type 0 where
    pub nonempty : 0 < task.size
    pub image_fits : task.size ≤ v.image_buf
    pub digest_fits : digest_len task.hash ≤ v.digest_buf
    pub material : VerificationMaterial
    pub known : p.material_for task ≡ some material
    pub measured : length material.expected_digest ≡ digest_len task.hash
    pub genuine : IsSigned slot task material

  check_digest_iff :
      (task : VerificationTask) (m : VerificationMaterial) (digest : List ℕ)
      → (check_digest p task m digest ≡ ok tt) ↔ (
          (digest ≡ m.expected_digest)
          × (p.verify task.signature digest m.signature m.public_key ≡ ok tt))
  unfolding check_digest
  check_digest_iff task m digest =
      let same = same_bytes_iff digest m.expected_digest in
      elim (Result-cases (p.verify task.signature digest m.signature m.public_key)) [
        | inl (tt, e) ↦ rw e (ground arith)
        | inr (c, e) ↦ rw e (ground arith)
      ]

  passed-IsSigned :
      (slot : Slot) (task : VerificationTask) (m : VerificationMaterial)
      → check_image p slot task m ≡ ok tt
      → IsSigned slot task m
  unfolding check_image
  passed-IsSigned slot task m h = elim (Result-cases (p.read slot task.offset task.size)) [
    | inr (e, q) ↦ absurd (ground arith)
    | inl (image, q) ↦ elim (Result-cases (p.digest task.hash image)) [
      | inr (e, r) ↦ absurd (ground arith)
      | inl (digest, r) ↦
          let d : check_digest p task m digest ≡ ok tt = ground arith in
          let (same, signed) = (check_digest_iff task m digest).0 d in
          record {
            image = image;
            stored = q;
            hashed = r ∙ ap (λ (b : List ℕ). ok b) same;
            signed = rw same at signed;
          }
    ]
  ]

  IsSigned-passed :
      (slot : Slot) (task : VerificationTask) (m : VerificationMaterial)
      → IsSigned slot task m
      → check_image p slot task m ≡ ok tt
  unfolding check_image
  IsSigned-passed slot task m s =
      let d = (check_digest_iff task m m.expected_digest).1 (refl, s.signed) in
      let stored = s.stored in let hashed = s.hashed in ground arith

  passed-IsGenuine :
      (v : ImageVerifier) (slot : Slot) (task : VerificationTask)
      → verify_task p v slot task ≡ ok tt
      → IsGenuine v slot task
  unfolding verify_task
  passed-IsGenuine v slot task h = elim (Option-cases (p.material_for task)) [
    | inl e ↦ absurd (ground arith)
    | inr (m, e) ↦
        let c : check_image p slot task m ≡ ok tt = ground arith in
        record {
          nonempty = ground arith;
          image_fits = ground arith;
          digest_fits = ground arith;
          material = m;
          known = e;
          measured = ground arith;
          genuine = passed-IsSigned slot task m c;
        }
  ]

  IsGenuine-passed :
      (v : ImageVerifier) (slot : Slot) (task : VerificationTask)
      → IsGenuine v slot task
      → verify_task p v slot task ≡ ok tt
  unfolding verify_task
  IsGenuine-passed v slot task g =
      let q = IsSigned-passed slot task g.material g.genuine in let known = g.known in ground arith

  -- `verify_task` passes exactly the tasks that are genuine.
  pub verify_task_iff :
      (v : ImageVerifier) (slot : Slot) (task : VerificationTask)
      → (verify_task p v slot task ≡ ok tt) ↔ IsGenuine v slot task
  verify_task_iff v slot task = (passed-IsGenuine v slot task, IsGenuine-passed v slot task)

  verify_images_iff :
      (v : ImageVerifier) (slot : Slot) (is : List ImageDescriptor)
      → (verify_images p v slot is ≡ ok tt) ↔ All (λ i. IsGenuine v slot (task_from i)) is
  unfolding verify_images
  verify_images_iff v slot [] = ground arith
  verify_images_iff v slot (i ∷ is) =
      let rest = verify_images_iff v slot is in
      let task = task_from i in
      elim (Result-cases (verify_task p v slot task)) [
        | inl (tt, e) ↦ (
          λ h. (passed-IsGenuine v slot task e, rest.0 (ground arith)),
          λ g. let r = rest.1 g.1 in ground arith,
        )
        | inr (q, e) ↦ (
          λ h. absurd (ground arith),
          λ g. let r = IsGenuine-passed v slot task g.0 in absurd (ground arith),
        )
      ]

  -- The manifest is sound, its images reach the minimum security version, and each is genuine.
  pub record IsVerified (v : ImageVerifier) (slot : Slot) (m : PlatformFirmwareManifest)
      (rollback : AntiRollbackPolicy) : Type 0 where
    pub sound : IsSound m
    pub recent : All (λ i. rollback.minimum_svn ≤ i.svn) m.images
    pub images : All (λ i. IsGenuine v slot (task_from i)) m.images

  -- `verify_manifest` passes exactly the manifests that are sound, whose images reach the minimum
  -- security version, and of which every image is genuine: it fits the buffers, its bytes in flash
  -- have the expected digest, and the signature over that digest is accepted.
  pub verify_manifest_iff :
      (v : ImageVerifier) (slot : Slot) (m : PlatformFirmwareManifest)
      (rollback : AntiRollbackPolicy)
      → (verify_manifest p v slot m rollback ≡ ok tt) ↔ IsVerified v slot m rollback
  unfolding verify_manifest
  verify_manifest_iff v slot m rollback = elim (Result-cases (validate_manifest m)) [
    | inr (q, e) ↦ (
      λ h. absurd (ground arith),
      λ g. let s = (validate_manifest_iff m).1 g.sound in absurd (ground arith),
    )
    | inl (tt, e) ↦ elim (Result-cases (validate_anti_rollback m rollback)) [
      | inr (q, f) ↦ (
        λ h. absurd (ground arith),
        λ g. let s = (validate_anti_rollback_iff m rollback).0.1 g.recent in absurd (ground arith),
      )
      | inl (tt, f) ↦ (
        λ h. record {
          sound = (validate_manifest_iff m).0 e;
          recent = (validate_anti_rollback_iff m rollback).0.0 f;
          images = (verify_images_iff v slot m.images).0 (ground arith);
        },
        λ g. let s = (verify_images_iff v slot m.images).1 g.images in ground arith,
      )
    ]
  ]

  -- The engine used by the event loop passes a manifest exactly when it names no image at all or
  -- `verify_manifest` passes it.
  pub verify_manifest_or_unprovisioned_iff :
      (v : ImageVerifier) (slot : Slot) (m : PlatformFirmwareManifest)
      (rollback : AntiRollbackPolicy)
      → (verify_manifest_or_unprovisioned p v slot m rollback ≡ ok tt)
        ↔ ((m.images ≡ []) ⊎ IsVerified v slot m rollback)
  unfolding verify_manifest_or_unprovisioned
  verify_manifest_or_unprovisioned_iff v slot m rollback =
      ground (arith, verify_manifest_iff v slot m rollback)

-- The platform of the AST1060 firmware, which has no material.
abbrev pub unprovisioned : {F C : Type 0} → Platform F C → Platform F C
unprovisioned p = record p { material_for = no_material }

nothing_genuine :
    {F C : Type 0} (p : Platform F C) (v : ImageVerifier) (slot : Slot) (is : List ImageDescriptor)
    → All (λ i. IsGenuine (unprovisioned p) v slot (task_from i)) is
    → is ≡ []
unfolding no_material
nothing_genuine p v slot [] g = refl
nothing_genuine p v slot (i ∷ is) g = let known = g.0.known in absurd (ground arith)

-- Without material, as in the firmware of the AST1060, a manifest passes exactly when it names no
-- image.
pub no_material_iff :
    {F C : Type 0} (p : Platform F C) (v : ImageVerifier) (slot : Slot)
    (m : PlatformFirmwareManifest) (rollback : AntiRollbackPolicy)
    → (verify_manifest_or_unprovisioned (unprovisioned p) v slot m rollback ≡ ok tt)
      ↔ (m.images ≡ [])
no_material_iff p v slot m rollback =
    let engine = verify_manifest_or_unprovisioned_iff (unprovisioned p) v slot m rollback in
    (
      λ h. elim (engine.0 h) [ inl e ↦ e | inr g ↦ nothing_genuine p v slot m.images g.images ],
      λ e. engine.1 (inl e),
    )
