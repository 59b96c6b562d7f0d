-- ===== src/Platform/Ast1060/Authentic.antt =====
-- What the AST1060 verifies of an image (app-rot/src/platform/ast1060.rs, app-rot/src/verify.rs).
use mcu_runtime.Base.{
  ℕ, ◌+◌, ◌≤◌, ◌<◌, ◌≡◌, ◌↔◌, inl, inr, Option, some, List, length, take, replicate, ok,
  Result-cases, arith,
}
use mcu_runtime.Base.Words.{IsU32}
use mcu_runtime.Base.Results.{◌>>=◌}
use mcu_runtime.Flash.{Slot}
use mcu_runtime.Manifest.{digest_len, VerificationTask}
use mcu_runtime.Verify.{VerificationMaterial, ImageVerifier, verify_task}
use mcu_runtime.Verify.Genuine.{verify_task_iff}
use mcu_runtime.Platform.Ast1060.Flash.{SpiHal, FlashSlot, find_mapping, bus, read}
use mcu_runtime.Platform.Ast1060.Crypto.{CryptoHal, hash_algo, digest, platform}
use mcu_runtime.Platform.Ast1060.Crypto.Accepted.{IsAccepted, verify_iff}

module _ {H R D K M E : Type 0} (hal : CryptoHal H R D) (spi : SpiHal K M E)
    (slots : List (FlashSlot K)) (m : M) where
  -- The bytes of a range of a slot: some mapping of the slot holds it, on a chip select that exists
  -- and at addresses of 32 bits.
  pub record IsStored (slot : Slot) (offset len : ℕ) (bytes : List ℕ) : Type 0 where
    pub mapping : FlashSlot K
    pub found : find_mapping spi slots slot offset len ≡ ok mapping
    pub selected : mapping.ce ≤ 1
    pub addressed : IsU32 (mapping.offset + offset)
    pub holds :
        bytes ≡ spi.read_memory_mapped mapping.controller mapping.ce (mapping.offset + offset) len m

  -- The engine's hash of some bytes begins with the digest.
  pub record IsDigest (digest_buf : ℕ) (task : VerificationTask) (bytes expected : List ℕ)
      : Type 0 where
    pub out : List ℕ
    pub hashed : hal.hash (hash_algo task.hash) bytes (replicate digest_buf 0) ≡ ok out
    pub begins : take (digest_len task.hash) out ≡ expected

  read_iff :
      (slot : Slot) (offset len : ℕ) (bytes : List ℕ)
      → (read spi slots slot offset len m ≡ ok bytes) ↔ IsStored slot offset len bytes
  unfolding read bus
  read_iff slot offset len bytes = (
    λ h. elim (Result-cases (find_mapping spi slots slot offset len)) [
      | inr (e, q) ↦ absurd (ground arith)
      | inl (mapping, q) ↦ record {
        mapping = mapping;
        found = q;
        selected = ground arith;
        addressed = ground arith;
        holds = ground arith;
      }
    ],
    λ s.
        let f = s.found in
        let c = s.selected in let a = s.addressed in let h = s.holds in ground arith,
  )

  digest_iff :
      (digest_buf : ℕ) (task : VerificationTask) (bytes expected : List ℕ)
      → ((digest hal task.hash bytes (replicate digest_buf 0) >>= λ (n, out). ok (take n out))
          ≡ ok expected)
        ↔ IsDigest digest_buf task bytes expected
  unfolding digest
  digest_iff digest_buf task bytes expected = (
    λ h. elim (Result-cases (hal.hash (hash_algo task.hash) bytes (replicate digest_buf 0))) [
      | inr (e, q) ↦ absurd (ground arith)
      | inl (out, q) ↦ record { out = out; hashed = q; begins = ground arith }
    ],
    λ d. let h = d.hashed in let b = d.begins in ground arith,
  )

  -- The task fits the buffers, the bytes of its range are stored and have the digest of its
  -- material, and the signature over that digest is accepted.
  pub record IsAuthentic (digest_buf : ℕ)
      (material_for : VerificationTask → Option VerificationMaterial) (v : ImageVerifier)
      (slot : Slot) (task : VerificationTask) : Type 0 where
    pub nonempty : 0 < task.size
    pub image_fits : task.size ≤ v.image_buf
    pub digest_fits : digest_len task.hash ≤ v.digest_buf
    pub material : VerificationMaterial
    pub known : material_for task ≡ some material
    pub measured : length material.expected_digest ≡ digest_len task.hash
    pub image : List ℕ
    pub stored : IsStored slot task.offset task.size image
    pub hashed : IsDigest digest_buf task image material.expected_digest
    pub accepted :
        IsAccepted hal task.signature material.expected_digest material.signature
          material.public_key

  -- With the backends of the AST1060, whatever material there is, the verification of an image
  -- passes exactly when the image is authentic: it fits the buffers, a mapping of the slot holds
  -- its range, the hash engine gives the digest of the material on the bytes that are read there,
  -- and the signature over that digest is accepted.
  pub verify_task-IsAuthentic :
      (digest_buf : ℕ) (material_for : VerificationTask → Option VerificationMaterial)
      (v : ImageVerifier) (slot : Slot) (task : VerificationTask)
      → (verify_task (platform hal spi slots m digest_buf material_for) v slot task ≡ ok tt)
        ↔ IsAuthentic digest_buf material_for v slot task
  unfolding platform
  verify_task-IsAuthentic digest_buf material_for v slot task =
      let (to, from) =
        verify_task_iff (platform hal spi slots m digest_buf material_for) v slot task in
      (
        λ h.
            let g = to h in
            let d = g.material.expected_digest in
            record {
              nonempty = g.nonempty;
              image_fits = g.image_fits;
              digest_fits = g.digest_fits;
              material = g.material;
              known = g.known;
              measured = g.measured;
              image = g.genuine.image;
              stored = (read_iff slot task.offset task.size g.genuine.image).0 g.genuine.stored;
              hashed = (digest_iff digest_buf task g.genuine.image d).0 g.genuine.hashed;
              accepted =
                  (verify_iff hal task.signature d g.material.signature g.material.public_key).0
                    g.genuine.signed;
            },
        λ a.
            let d = a.material.expected_digest in
            from (record {
              nonempty = a.nonempty;
              image_fits = a.image_fits;
              digest_fits = a.digest_fits;
              material = a.material;
              known = a.known;
              measured = a.measured;
              genuine = record {
                image = a.image;
                stored = (read_iff slot task.offset task.size a.image).1 a.stored;
                hashed = (digest_iff digest_buf task a.image d).1 a.hashed;
                signed =
                    (verify_iff hal task.signature d a.material.signature a.material.public_key).1
                      a.accepted;
              };
            }),
      )
