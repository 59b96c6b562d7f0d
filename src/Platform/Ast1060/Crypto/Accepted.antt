-- ===== src/Platform/Ast1060/Crypto/Accepted.antt =====
-- Which signatures the AST1060 accepts (app-rot/src/platform/ast1060.rs).
use mcu_runtime.Base.{
  ℕ, ◌*◌, ◌/◌, ◌<◌, ◌≡◌, refl, sym, ◌∙◌, ◌↔◌, inl, inr, Bool, true, false, ◌==◌, leb, not, ◌||◌,
  if◌then◌else◌, List, length, take, drop, length-take, length-drop, Result, ok, err, Result-cases,
  arith,
}
use mcu_runtime.Base.Words.{as_u32}
use mcu_runtime.Base.Results.{◌>>=◌, map_err}
use mcu_runtime.Manifest.{SignatureAlgorithm, ecdsa_p384, rsa2048, rsa3072, rsa4096}
use mcu_runtime.Platform.Ast1060.Crypto.{
  CryptoHal, DigestAlgo, Ast1060CryptoError, ecdsa, rsa, accept, verify_rsa, verify_ecdsa_p384,
  verify, digest_algo_from_len, array_ref,
}

-- The engine's name for the hash with a digest of `len` bytes.
pub data HasAlgo (len : ℕ) : DigestAlgo → Type 0 where
  is_sha256 : len ≡ 32 → HasAlgo len DigestAlgo.sha256
  is_sha384 : len ≡ 48 → HasAlgo len DigestAlgo.sha384
  is_sha512 : len ≡ 64 → HasAlgo len DigestAlgo.sha512

-- Past a guard, its condition is false.
guarded :
    {X E : Type 0} (e : E) (r : Result X E) (x : X) (b : Bool)
    → (if b then err e else r) ≡ ok x
    → b ≡ false
guarded e r x true h = absurd (ground arith)
guarded e r x false h = refl

p384_lengths :
    (d s k : ℕ)
    → (not (d == 48) || not (s == 96) || not (k == 96)) ≡ false
    → (d ≡ 48) × (s ≡ 96) × (k ≡ 96)
p384_lengths d s k h = ground arith

rsa_lengths : (s k n : ℕ) → (not (s == n) || leb k n) ≡ false → (s ≡ n) × (n < k)
rsa_lengths s k n h = ground arith

module _ {H R D : Type 0} (hal : CryptoHal H R D) where
  -- The lengths fit a modulus of `bits` bits, and the engine accepts.
  pub record IsRsa (bits : ℕ) (digest signature key : List ℕ) : Type 0 where
    pub algo : DigestAlgo
    pub hashed : HasAlgo (length digest) algo
    pub signature_len : length signature ≡ bits / 8
    pub key_len : bits / 8 < length key
    pub accepted :
        hal.rsa_verify signature digest algo
          (take (bits / 8) key)
          (drop (bits / 8) key)
          bits
          (as_u32 (length (drop (bits / 8) key) * 8))
        ≡ ok true

  pub record IsEcdsa (digest signature key : List ℕ) : Type 0 where
    pub digest_len : length digest ≡ 48
    pub signature_len : length signature ≡ 96
    pub key_len : length key ≡ 96
    pub accepted :
        hal.ecdsa_verify (take 48 key) (drop 48 key) (take 48 signature) (drop 48 signature) digest
        ≡ ok true

  -- A `?` on an engine's answer, and the test of it.
  accept_iff :
      {X : Type 0} (wrap : X → Ast1060CryptoError H R D) (r : Result Bool X)
      → ((map_err wrap r >>= accept hal) ≡ ok tt) ↔ (r ≡ ok true)
  accept_iff wrap (ok true) = ground arith
  accept_iff wrap (ok false) = ground arith
  accept_iff wrap (err x) = ground arith

  array_ref_ok : (n : ℕ) (bytes : List ℕ) → length bytes ≡ n → array_ref hal n bytes ≡ ok bytes
  unfolding array_ref
  array_ref_ok n bytes h = ground arith

  -- With the lengths that it asks for, the engine is asked about the halves.
  ecdsa_asks :
      (digest signature key : List ℕ)
      → length digest ≡ 48
      → length signature ≡ 96
      → length key ≡ 96
      → verify_ecdsa_p384 hal digest signature key ≡ (
          map_err
            (λ e. ecdsa e)
            (hal.ecdsa_verify
              (take 48 key)
              (drop 48 key)
              (take 48 signature)
              (drop 48 signature)
              digest)
          >>= accept hal)
  unfolding verify_ecdsa_p384
  ecdsa_asks digest signature key d s k =
      let qx = array_ref_ok 48 (take 48 key) (ground (arith, length-take 48 key)) in
      let qy = array_ref_ok 48 (drop 48 key) (ground (arith, length-drop 48 key)) in
      let sig_r = array_ref_ok 48 (take 48 signature) (ground (arith, length-take 48 signature)) in
      let sig_s = array_ref_ok 48 (drop 48 signature) (ground (arith, length-drop 48 signature)) in
      rw d (rw s (rw k (rw qx (rw qy (rw sig_r (rw sig_s refl))))))

  verify_ecdsa_p384_iff :
      (digest signature key : List ℕ)
      → (verify_ecdsa_p384 hal digest signature key ≡ ok tt) ↔ IsEcdsa digest signature key
  unfolding verify_ecdsa_p384
  verify_ecdsa_p384_iff digest signature key = (
    λ h.
        let (d, s, k) =
          p384_lengths (length digest) (length signature) (length key) (guarded _ _ _ _ h) in
        record {
          digest_len = d;
          signature_len = s;
          key_len = k;
          accepted =
              (accept_iff (λ e. ecdsa e)
                  (hal.ecdsa_verify (take 48 key) (drop 48 key) (take 48 signature)
                    (drop 48 signature) digest)).0
                (sym (ecdsa_asks digest signature key d s k) ∙ h);
        },
    λ g.
        ecdsa_asks digest signature key g.digest_len g.signature_len g.key_len
        ∙ (accept_iff (λ e. ecdsa e)
              (hal.ecdsa_verify (take 48 key) (drop 48 key) (take 48 signature) (drop 48 signature)
                digest)).1
            g.accepted,
  )

  HasAlgo-ok : (len : ℕ) (a : DigestAlgo) → HasAlgo len a → digest_algo_from_len hal len ≡ ok a
  unfolding digest_algo_from_len
  HasAlgo-ok len _ (is_sha256 e) = ground arith
  HasAlgo-ok len _ (is_sha384 e) = ground arith
  HasAlgo-ok len _ (is_sha512 e) = ground arith

  ok-HasAlgo : (len : ℕ) (a : DigestAlgo) → digest_algo_from_len hal len ≡ ok a → HasAlgo len a
  unfolding digest_algo_from_len
  ok-HasAlgo len DigestAlgo.sha256 h = is_sha256 (ground arith)
  ok-HasAlgo len DigestAlgo.sha384 h = is_sha384 (ground arith)
  ok-HasAlgo len DigestAlgo.sha512 h = is_sha512 (ground arith)

  rsa_answer : (bits : ℕ) (digest signature key : List ℕ) → DigestAlgo → Result Bool R
  rsa_answer bits digest signature key algo =
      hal.rsa_verify signature digest algo (take (bits / 8) key) (drop (bits / 8) key) bits
        (as_u32 (length (drop (bits / 8) key) * 8))

  rsa_asks :
      (bits : ℕ) (digest signature key : List ℕ) (algo : DigestAlgo)
      → digest_algo_from_len hal (length digest) ≡ ok algo
      → length signature ≡ bits / 8
      → bits / 8 < length key
      → verify_rsa hal digest signature key bits
        ≡ (map_err (λ e. rsa e) (rsa_answer bits digest signature key algo) >>= accept hal)
  unfolding verify_rsa rsa_answer
  rsa_asks bits digest signature key algo a s k =
      let fits : (not (length signature == bits / 8) || leb (length key) (bits / 8)) ≡ false =
        ground arith in
      rw fits (rw a refl)

  verify_rsa_iff :
      (bits : ℕ) (digest signature key : List ℕ)
      → (verify_rsa hal digest signature key bits ≡ ok tt) ↔ IsRsa bits digest signature key
  unfolding verify_rsa rsa_answer
  verify_rsa_iff bits digest signature key = (
    λ h.
        let (s, k) = rsa_lengths (length signature) (length key) (bits / 8) (guarded _ _ _ _ h) in
        elim (Result-cases (digest_algo_from_len hal (length digest))) [
          | inr (e, q) ↦ absurd (ground arith)
          | inl (algo, q) ↦ record {
            algo = algo;
            hashed = ok-HasAlgo (length digest) algo q;
            signature_len = s;
            key_len = k;
            accepted =
                (accept_iff (λ e. rsa e) (rsa_answer bits digest signature key algo)).0
                  (sym (rsa_asks bits digest signature key algo q s k) ∙ h);
          }
        ],
    λ g.
        rsa_asks bits digest signature key g.algo (HasAlgo-ok (length digest) g.algo g.hashed)
          g.signature_len g.key_len
        ∙ (accept_iff (λ e. rsa e) (rsa_answer bits digest signature key g.algo)).1 g.accepted,
  )

  -- What the signature algorithms ask for.
  unfoldable pub IsAccepted : SignatureAlgorithm → List ℕ → List ℕ → List ℕ → Type 0
  IsAccepted ecdsa_p384 digest signature key = IsEcdsa digest signature key
  IsAccepted rsa2048 digest signature key = IsRsa 2048 digest signature key
  IsAccepted rsa3072 digest signature key = IsRsa 3072 digest signature key
  IsAccepted rsa4096 digest signature key = IsRsa 4096 digest signature key

  -- The signature verifier of the AST1060 accepts exactly what its engines accept with the lengths
  -- that the algorithm asks for: a P-384 signature and key of 96 bytes over a digest of 48, cut in
  -- halves; an RSA signature as long as the modulus, with a key that has an exponent behind the
  -- modulus, over a digest of 32, 48 or 64 bytes that names the hash.
  pub verify_iff :
      (algorithm : SignatureAlgorithm) (digest signature key : List ℕ)
      → (verify hal algorithm digest signature key ≡ ok tt)
        ↔ IsAccepted algorithm digest signature key
  unfolding verify IsAccepted
  verify_iff ecdsa_p384 digest signature key = verify_ecdsa_p384_iff digest signature key
  verify_iff rsa2048 digest signature key = verify_rsa_iff 2048 digest signature key
  verify_iff rsa3072 digest signature key = verify_rsa_iff 3072 digest signature key
  verify_iff rsa4096 digest signature key = verify_rsa_iff 4096 digest signature key
