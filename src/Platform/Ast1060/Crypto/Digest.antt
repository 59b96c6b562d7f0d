-- ===== src/Platform/Ast1060/Crypto/Digest.antt =====
-- The digests that the AST1060 can check (app-rot/src/platform/ast1060.rs).
use mcu_runtime.Base.{ℕ, ◌≡◌, refl, sym, ◌∙◌, Option, List, ok, arith}
use mcu_runtime.Manifest.{HashAlgorithm, digest_len, ecdsa_p384, VerificationTask}
use mcu_runtime.Flash.{Slot}
use mcu_runtime.Verify.{VerificationMaterial, ImageVerifier, verify_task}
use mcu_runtime.Verify.Genuine.{verify_task_iff}
use mcu_runtime.Platform.Ast1060.Flash.{SpiHal, FlashSlot}
use mcu_runtime.Platform.Ast1060.Crypto.{CryptoHal, verify, platform}
use mcu_runtime.Platform.Ast1060.Crypto.Accepted.{IsAccepted, verify_iff}

is_sha384_len : (a : HashAlgorithm) → digest_len a ≡ 48 → a ≡ HashAlgorithm.sha384
unfolding digest_len
is_sha384_len HashAlgorithm.sha256 h = absurd (omega arith)
is_sha384_len HashAlgorithm.sha384 h = refl
is_sha384_len HashAlgorithm.sha512 h = absurd (omega arith)

module _ {H R D : Type 0} (hal : CryptoHal H R D) where
  -- With the backends of the AST1060, whatever its flash and engines answer, an image of a manifest
  -- that is signed with P-384 is only ever accepted when the manifest hashes it with SHA-384.
  pub ecdsa_needs_sha384 :
      {K M E : Type 0} (spi : SpiHal K M E) (slots : List (FlashSlot K)) (m : M) (digest_buf : ℕ)
      (material : VerificationTask → Option VerificationMaterial) (v : ImageVerifier) (slot : Slot)
      (task : VerificationTask)
      → task.signature ≡ ecdsa_p384
      → verify_task (platform hal spi slots m digest_buf material) v slot task ≡ ok tt
      → task.hash ≡ HashAlgorithm.sha384
  unfolding platform digest_len IsAccepted
  ecdsa_needs_sha384 spi slots m digest_buf material v slot task e h =
      let g = (verify_task_iff (platform hal spi slots m digest_buf material) v slot task).0 h in
      let d = g.material.expected_digest in
      let signed : verify hal task.signature d g.material.signature g.material.public_key ≡ ok tt =
        g.genuine.signed in
      let accepted =
        (verify_iff hal ecdsa_p384 d g.material.signature g.material.public_key).0
          (rw e at signed) in
      let measured = sym accepted.digest_len ∙ g.measured in is_sha384_len task.hash (sym measured)
