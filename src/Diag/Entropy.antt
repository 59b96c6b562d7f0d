-- ===== src/Diag/Entropy.antt =====
-- The entropy of the counter (`timer_entropy` of app-rot/src/bin/caliptra_hello_bootmcu.rs). A
-- multiplication that overflows panics where the profile checks it, which is none, and else wraps.
use native.Mathlib.Nat.{pow-suc, div-add-mod', mod-lt, mul-le-mul_right, div-lt_iff_lt-mul}
use mcu_runtime.Base.{
  ℕ, zero, suc, ◌+◌, ◌-◌, ◌*◌, ◌/◌, ◌%◌, ◌^◌, ◌<◌, ◌≤◌, bit_xor, ◌≡◌, refl, ap, ◌∙◌, Bool, true,
  false, if◌then◌else◌, ltb, Bool-cases, inl, inr, Option, none, some, ◌>>=◌, List, [], ◌∷◌, length,
  All, arith,
}
use mcu_runtime.Base.Words.{IsU32, as_u32}
use mcu_runtime.Base.Xor.{xor-below}
use mcu_runtime.Base.Registers.{pow-positive}

-- `u32::rotate_left`.
unfoldable pub rotate_left : ℕ → ℕ → ℕ
rotate_left x n = as_u32 (x * 2 ^ (n % 32)) + x / 2 ^ (32 - n % 32)

-- `a * b` of 32-bit numbers.
unfoldable pub times : Bool → ℕ → ℕ → Option ℕ
times checks a b =
    if ltb (a * b) 4294967296 then some (a * b) else if checks then none else some (as_u32 (a * b))

module _ {M : Type 0} (checks : Bool) (read_timer : M → M × ℕ) where
  -- A word in front of those behind it; nothing is read behind a panic.
  abbrev word : Option ℕ → ℕ → M → M × Option (List ℕ) → M × Option (List ℕ)
  word none turned m rest = (m, none)
  word (some mask) turned m (m', rest) = (m', do words ← rest; some (bit_xor turned mask ∷ words))

  -- The loop from word `i` on, for `n` words.
  unfoldable pub timer_words : ℕ → ℕ → M → M × Option (List ℕ)
  unfolding rotate_left times
  timer_words zero i m = (m, some [])
  timer_words (suc n) i m =
      let (m', raw) = read_timer m in
      let rest = timer_words n (suc i) m' in
      word (times checks i 0x9e3779b9) (rotate_left raw (i * 5)) m' rest

  unfoldable pub timer_entropy : M → M × Option (List ℕ)
  unfolding timer_words
  timer_entropy m = timer_words 12 0 m

  -- Where overflow is checked, the third word is never reached: `2 * 0x9e3779b9` has 33 bits.
  panics : (m : M) → checks ≡ true → (timer_entropy m).1 ≡ none
  unfolding timer_entropy timer_words times
  panics m e = rw e refl

pow_add : (k j : ℕ) → 2 ^ k * 2 ^ j ≡ 2 ^ (k + j)
pow_add zero j = let w : 0 + j ≡ j = omega arith in rw w (omega arith)
pow_add (suc k) j =
    let w : suc k + j ≡ suc (k + j) = omega arith in
    rw w (grind (arith, pow-suc 2 k, pow-suc 2 (k + j), pow_add k j))

-- Turning a number of 32 bits leaves it a number of 32 bits: the bits that leave at the top are as
-- many as the places that become free at the bottom.
turned :
    (x a b : ℕ)
    → IsU32 x
    → 0 < a
    → 0 < b
    → a * b ≡ 4294967296
    → x * a % 4294967296 + x / b < 4294967296
turned x a b h pa pb e =
    let q = x / b in
    let r = x % b in
    let d : q * b + r ≡ x = div-add-mod' x b in
    let m : x * a ≡ q * 4294967296 + r * a =
      omega (arith, ap (λ (t : ℕ). t * a) d, ap (λ (t : ℕ). q * t) e) in
    let l : r * a + a ≤ 4294967296 =
      omega (arith, mul-le-mul_right {m = suc r} {n = b} a (mod-lt x pb), e) in
    let u : q < a = (div-lt_iff_lt-mul {k = b} {x = x} {y = a} pb).1 (omega (arith, e)) in
    omega (arith, m, l, u)

rotate_left-below : (x n : ℕ) → IsU32 x → rotate_left x n < 2 ^ 32
unfolding rotate_left
rotate_left-below x n h =
    let k = n % 32 in
    let e : k + (32 - k) ≡ 32 = omega arith in
    turned x (2 ^ k) (2 ^ (32 - k)) h (pow-positive k) (pow-positive (32 - k))
      (pow_add k (32 - k) ∙ ap (λ (t : ℕ). 2 ^ t) e)

-- A multiplication that wraps gives a number of 32 bits.
times-wraps : (a b : ℕ) → (c : ℕ) × (times false a b ≡ some c) × (c < 2 ^ 32)
unfolding times
times-wraps a b = elim (Bool-cases (ltb (a * b) 4294967296)) [
  | inl e ↦ (a * b, rw e refl, ground arith)
  | inr e ↦ (as_u32 (a * b), rw e refl, omega arith)
]

-- What `timer_entropy` gives: nothing where overflow is checked, else twelve words of 32 bits.
abbrev pub Entropy : Bool → Option (List ℕ) → Type 0
Entropy true r = r ≡ none
Entropy false r = (words : List ℕ) × (r ≡ some words) × (length words ≡ 12) × All IsU32 words

module _ {M : Type 0} (read_timer : M → M × ℕ) where
  words-wrap :
      (n i : ℕ) (m : M)
      → ((m : M) → IsU32 (read_timer m).1)
      → (words : List ℕ) × ((timer_words false read_timer n i m).1 ≡ some words)
        × (length words ≡ n)
        × All IsU32 words
  unfolding timer_words
  words-wrap zero i m h = ([], refl, refl, tt)
  words-wrap (suc n) i m h =
      let (m1, raw) = read_timer m in
      let (words, ran, size, all) = words-wrap n (suc i) m1 h in
      let (mask, product, below) = times-wraps i 0x9e3779b9 in
      let first = bit_xor (rotate_left raw (i * 5)) mask in
      let b =
        xor-below 32 (rotate_left raw (i * 5)) mask (rotate_left-below raw (i * 5) (h m)) below in
      (first ∷ words, rw (product, ran) refl, ap suc size, (b, all))

  -- For a counter of 32 bits `timer_entropy` gives twelve words of 32 bits where the profile does
  -- not check overflow; where it checks it, the routine always panics.
  pub timer_entropy-Entropy :
      (checks : Bool) (m : M)
      → ((m : M) → IsU32 (read_timer m).1)
      → Entropy checks (timer_entropy checks read_timer m).1
  unfolding timer_entropy
  timer_entropy-Entropy true m h = panics true read_timer m refl
  timer_entropy-Entropy false m h = words-wrap 12 0 m h
