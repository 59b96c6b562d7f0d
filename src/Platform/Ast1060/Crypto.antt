-- ===== src/Platform/Ast1060/Crypto.antt =====
-- The crypto backend of the AST1060 (app-rot/src/platform/ast1060.rs). The hash, RSA and ECDSA
-- engines of the HAL are parameters.
pub mod Accepted
pub mod Digest
use mcu_runtime.Base.{
  ℕ, ◌+◌, ◌*◌, ◌/◌, Bool, true, false, ◌||◌, not, if◌then◌else◌, leb, ◌==◌, Option, List, length,
  take, drop, replicate, Result, ok, err,
}
use mcu_runtime.Base.Words.{as_u32}
use mcu_runtime.Base.Results.{◌>>=◌, map_err}
use mcu_runtime.Manifest.{
  HashAlgorithm, digest_len, SignatureAlgorithm, ecdsa_p384, rsa2048, rsa3072, rsa4096,
  VerificationTask,
}
use mcu_runtime.Verify.{Platform, VerificationMaterial}
use mcu_runtime.Flash.{Slot}
use mcu_runtime.Platform.Ast1060.Flash.{SpiHal, FlashSlot, Ast1060FlashError, read}

-- The engines' names for the algorithms.
pub data HashAlgo : Type 0 where
  sha256 sha384 sha512 : HashAlgo

pub data DigestAlgo : Type 0 where
  sha256 sha384 sha512 : DigestAlgo

-- `Hace::hash`, which returns `out` as it leaves it, `Rsa::verify` and `Ecdsa::verify`.
pub record CryptoHal (H R D : Type 0) : Type 0 where
  pub hash : HashAlgo → List ℕ → List ℕ → Result (List ℕ) H
  pub rsa_verify : List ℕ → List ℕ → DigestAlgo → List ℕ → List ℕ → ℕ → ℕ → Result Bool R
  pub ecdsa_verify : List ℕ → List ℕ → List ℕ → List ℕ → List ℕ → Result Bool D

pub data Ast1060CryptoError (H R D : Type 0) : Type 0 where
  invalid_length invalid_signature : Ast1060CryptoError H R D
  hace : H → Ast1060CryptoError H R D
  rsa : R → Ast1060CryptoError H R D
  ecdsa : D → Ast1060CryptoError H R D

-- The match of `digest` on the algorithm.
abbrev pub hash_algo : HashAlgorithm → HashAlgo
hash_algo HashAlgorithm.sha256 = HashAlgo.sha256
hash_algo HashAlgorithm.sha384 = HashAlgo.sha384
hash_algo HashAlgorithm.sha512 = HashAlgo.sha512

module _ {H R D : Type 0} (hal : CryptoHal H R D) where
  -- The number of bytes of the digest, and the buffer that holds them.
  unfoldable pub digest :
      HashAlgorithm → List ℕ → List ℕ → Result (ℕ × List ℕ) (Ast1060CryptoError H R D)
  unfolding digest_len
  digest algorithm bytes out = do
    out' ← map_err (λ e. hace e) (hal.hash (hash_algo algorithm) bytes out)
    ok (digest_len algorithm, out')

  unfoldable pub digest_algo_from_len : ℕ → Result DigestAlgo (Ast1060CryptoError H R D)
  digest_algo_from_len len =
      if len == 32
      then ok DigestAlgo.sha256
      else if len == 48
      then ok DigestAlgo.sha384
      else if len == 64
      then ok DigestAlgo.sha512
      else err invalid_length

  -- `if ... { Ok(()) } else { Err(InvalidSignature) }`.
  abbrev accept : Bool → Result (Unit {0}) (Ast1060CryptoError H R D)
  accept valid = if valid then ok tt else err invalid_signature

  -- The product is taken in a `usize` of 32 bits, so the conversion to `u32` succeeds.
  unfoldable pub verify_rsa :
      List ℕ → List ℕ → List ℕ → ℕ → Result (Unit {0}) (Ast1060CryptoError H R D)
  unfolding digest_algo_from_len
  verify_rsa digest signature public_key mod_bits =
      let modulus_len = mod_bits / 8 in
      if not (length signature == modulus_len) || leb (length public_key) modulus_len
      then err invalid_length
      else (do
        algo ← digest_algo_from_len (length digest)
        let modulus = take modulus_len public_key
        let exponent = drop modulus_len public_key
        let exp_bits = as_u32 (length exponent * 8)
        valid ←
            map_err (λ e. rsa e)
              (hal.rsa_verify signature digest algo modulus exponent mod_bits exp_bits)
        accept valid)

  unfoldable pub array_ref : ℕ → List ℕ → Result (List ℕ) (Ast1060CryptoError H R D)
  array_ref n bytes = if length bytes == n then ok bytes else err invalid_length

  unfoldable pub verify_ecdsa_p384 :
      List ℕ → List ℕ → List ℕ → Result (Unit {0}) (Ast1060CryptoError H R D)
  unfolding array_ref
  verify_ecdsa_p384 digest signature public_key =
      if not (length digest == 48) || not (length signature == 96) || not (length public_key == 96)
      then err invalid_length
      else (do
        qx ← array_ref 48 (take 48 public_key)
        qy ← array_ref 48 (drop 48 public_key)
        sig_r ← array_ref 48 (take 48 signature)
        sig_s ← array_ref 48 (drop 48 signature)
        digest' ← array_ref 48 digest
        valid ← map_err (λ e. ecdsa e) (hal.ecdsa_verify qx qy sig_r sig_s digest')
        accept valid)

  unfoldable pub verify :
      SignatureAlgorithm → List ℕ → List ℕ → List ℕ → Result (Unit {0}) (Ast1060CryptoError H R D)
  unfolding verify_ecdsa_p384 verify_rsa
  verify ecdsa_p384 digest signature public_key = verify_ecdsa_p384 digest signature public_key
  verify rsa2048 digest signature public_key = verify_rsa digest signature public_key 2048
  verify rsa3072 digest signature public_key = verify_rsa digest signature public_key 3072
  verify rsa4096 digest signature public_key = verify_rsa digest signature public_key 4096

  -- The backends as the parameters of the verification engine: flash in the state `m`, and a digest
  -- buffer of `digest_buf` bytes, the size that the engine's `ImageVerifier` has. It holds zeros
  -- before each digest, where the code leaves the bytes of the digest before.
  unfoldable pub platform :
      {K M E : Type 0}
      → SpiHal K M E
      → List (FlashSlot K)
      → M
      → ℕ
      → (VerificationTask → Option VerificationMaterial)
      → Platform (Ast1060FlashError E) (Ast1060CryptoError H R D)
  unfolding digest verify read
  platform spi slots m digest_buf material = record {
    read = λ slot offset len. read spi slots slot offset len m;
    digest = λ algorithm bytes.
        digest algorithm bytes (replicate digest_buf 0) >>= λ (n, out). ok (take n out);
    verify = verify;
    material_for = material;
  }
