-- ===== src/Tests/Backends.antt =====
-- The backends of the AST1060 (app-rot/src/platform/ast1060.rs) on a chip that is a function of the
-- address, and with engines that accept everything.
use mcu_runtime.Base.{
  ℕ, ◌≡◌, refl, ◌↔◌, ◌⊎◌, inr, true, Option, some, [], ◌∷◌, replicate, ok, err, arith,
}
use mcu_runtime.Flash.{Slot}
use mcu_runtime.Manifest.{HashAlgorithm, SignatureAlgorithm, VerificationTask, digest_len}
use mcu_runtime.Verify.{VerificationMaterial, ImageVerifier, verify_task}
use mcu_runtime.Platform.Ast1060.Flash.{SpiHal, FlashSlot, spi, find_mapping, read, write}
use mcu_runtime.Platform.Ast1060.Flash.Paged.{IsChip, read-write}
use mcu_runtime.Platform.Ast1060.Flash.Contents.{overlay, bytes_from}
use mcu_runtime.Platform.Ast1060.Crypto.{CryptoHal, verify, platform}
use mcu_runtime.Platform.Ast1060.Crypto.Accepted.{IsAccepted, verify_iff}
use mcu_runtime.Platform.Ast1060.Authentic.{IsAuthentic, verify_task-IsAuthentic}

abbrev nor : SpiHal ℕ (ℕ → ℕ) (Unit {0})
nor = record {
  read_memory_mapped = λ k ce p len m. bytes_from m p len;
  write_page = λ k ce p bytes m. (overlay m p bytes, ok tt);
  erase_sector = λ k ce p m. (overlay m p (replicate 4096 0xff), ok tt);
}

nor-IsChip : IsChip nor (λ m k ce a. m a)
nor-IsChip = record {
  reads = λ k ce p len m. refl;
  programs = λ k ce p bytes m paged erased done a. refl;
}

abbrev mapping : FlashSlot ℕ
mapping = record { slot = Slot.active; controller = 1; ce = 0; offset = 0x1000; size = 0x2000 }

abbrev erased : ℕ → ℕ
erased a = 0xff

found : find_mapping nor (mapping ∷ []) Slot.active 0xfe 3 ≡ ok mapping
unfolding find_mapping
found = refl

-- Three bytes across the end of a page.
read-write_example :
    let (m', r) = write nor (mapping ∷ []) Slot.active 0xfe (1 ∷ 2 ∷ 3 ∷ []) erased in
    ((r ≡ ok tt)
      × (read nor (mapping ∷ []) Slot.active 0xfe 3 m' ≡ ok (1 ∷ 2 ∷ 3 ∷ []))
      × (m' 0x1101 ≡ 0xff))
    ⊎ ((e : Unit {0}) × (r ≡ err (spi e)))
read-write_example =
    read-write nor (λ m k ce a. m a) nor-IsChip (mapping ∷ []) Slot.active mapping 0xfe
      (1 ∷ 2 ∷ 3 ∷ []) erased 0x1101 found (omega arith) refl (omega arith) (λ a l u. refl)
      (inr (omega arith))

abbrev engines : CryptoHal (Unit {0}) (Unit {0}) (Unit {0})
engines = record {
  hash = λ algo bytes out. ok (replicate 48 7);
  rsa_verify = λ signature digest algo modulus exponent mod_bits exp_bits. ok true;
  ecdsa_verify = λ qx qy sig_r sig_s digest. ok true;
}

verify_iff_example :
    (verify engines SignatureAlgorithm.rsa2048 (replicate 32 7) (replicate 256 1) (replicate 259 2)
      ≡ ok tt)
    ↔ IsAccepted engines SignatureAlgorithm.rsa2048
        (replicate 32 7)
        (replicate 256 1)
        (replicate 259 2)
verify_iff_example =
    verify_iff engines SignatureAlgorithm.rsa2048 (replicate 32 7) (replicate 256 1)
      (replicate 259 2)

abbrev task : VerificationTask
task = record {
  offset = 0;
  size = 4;
  hash = HashAlgorithm.sha384;
  signature = SignatureAlgorithm.ecdsa_p384;
  svn = 0;
}

abbrev material : VerificationTask → Option VerificationMaterial
material t = some (record {
  expected_digest = replicate 48 7;
  signature = replicate 96 1;
  public_key = replicate 96 2;
})

abbrev verifier : ImageVerifier
verifier = record { image_buf = 4096; digest_buf = 64 }

accepted :
    verify_task (platform engines nor (mapping ∷ []) erased 64 material) verifier Slot.active task
    ≡ ok tt
unfolding verify_task platform digest_len
accepted = refl

verify_task-IsAuthentic_example :
    (verify_task (platform engines nor (mapping ∷ []) erased 64 material) verifier Slot.active task
      ≡ ok tt)
    ↔ IsAuthentic engines nor (mapping ∷ []) erased 64 material verifier Slot.active task
verify_task-IsAuthentic_example =
    verify_task-IsAuthentic engines nor (mapping ∷ []) erased 64 material verifier Slot.active task
