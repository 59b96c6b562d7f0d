-- ===== src/Diag/Print/Decimal.antt =====
-- Decimal numbers that are printed (app-rot/src/bin) and read back.
use native.Mathlib.Nat.{pow-suc}
use native.Mathlib.Decide.{ℕ_discrete}
use mcu_runtime.Base.{
  ℕ, zero, suc, ◌+◌, ◌-◌, ◌*◌, ◌/◌, ◌%◌, ◌^◌, ◌<◌, ◌≤◌, ◌≡◌, ◌≢◌, ◌⊎◌, inl, inr, refl, sym, ap, ◌∙◌,
  if◌then◌else◌, leb, ◌==◌, ◌&&◌, Option, none, some, ◌>>=◌, List, [], ◌∷◌, length, get_or, set,
  get_or-set, length-set, drop, length-drop, get_or-drop, drop-set, drop-all, drop-cons, replicate,
  Option-cases, false, arith,
}
use mcu_runtime.Base.Words.{IsU32, as_u8}
use mcu_runtime.Diag.Print.{fill_dec, uart_dec32, send_from, uart_dec}

-- What a reader takes a digit for.
unfoldable pub dec_value : ℕ → Option ℕ
dec_value c = if leb b'0' c && leb c b'9' then some (c - b'0') else none

abbrev pub read_dec : ℕ → List ℕ → Option ℕ
read_dec a [] = some a
read_dec a (c ∷ cs) = do d ← dec_value c; read_dec (a * 10 + d) cs

-- A number without a zero in front, or 0 itself, as a reader accepts it.
unfoldable pub parse_dec : List ℕ → Option ℕ
parse_dec [] = none
parse_dec (c ∷ []) = dec_value c
parse_dec (c ∷ d ∷ cs) = if c == b'0' then none else read_dec 0 (c ∷ d ∷ cs)

-- The buffer behind a place and the place itself, where the number `n` has been written in front of
-- what stood behind `i`.
pub record Filled (n i : ℕ) (buf : List ℕ) (r : ℕ × List ℕ) : Type 0 where
  pub kept : length r.1 ≡ length buf
  pub below : r.0 ≤ i
  pub front : get_or r.1 r.0 0 ≢ b'0'
  pub value : read_dec 0 (drop r.0 r.1) ≡ read_dec n (drop i buf)

pub dec_value-digit : (n : ℕ) → dec_value (b'0' + as_u8 (n % 10)) ≡ some (n % 10)
unfolding dec_value
dec_value-digit n = ground arith

-- The first digit is no zero: either the number still has digits, or none has been written.
pub digit_front : (n c : ℕ) → c ≡ b'0' + as_u8 (suc n % 10) → (suc n / 10 ≢ 0) ⊎ (c ≢ b'0')
digit_front n c e = elim (ℕ_discrete (suc n / 10) 0) [
  | yes z ↦ inr (λ w. omega arith)
  | no d ↦ inl d
]

-- With `i` digits at most there is a place for each of them.
fill_dec-Filled :
    (fuel n i : ℕ) (buf : List ℕ)
    → n < 10 ^ i
    → i ≤ fuel
    → i ≤ length buf
    → (n ≢ 0) ⊎ (get_or buf i 0 ≢ b'0')
    → (r : ℕ × List ℕ) × (fill_dec fuel n i buf ≡ some r) × Filled n i buf r
unfolding fill_dec
fill_dec-Filled fuel zero i buf h f l (inl d) = absurd (d refl)
fill_dec-Filled fuel zero i buf h f l (inr c) =
    ((i, buf), refl, record { kept = refl; below = omega arith; front = c; value = refl })
fill_dec-Filled fuel (suc n) zero buf h f l c = absurd (omega arith)
fill_dec-Filled zero (suc n) (suc i) buf h f l c = absurd (omega arith)
fill_dec-Filled (suc fuel) (suc n) (suc i) buf h f l c =
    let digit = b'0' + as_u8 (suc n % 10) in
    let put = set buf i digit in
    let e : length put ≡ length buf = length-set buf i digit in
    let at : get_or put i 0 ≡ digit = get_or-set buf i digit 0 l in
    let (r, ran, filled) =
      fill_dec-Filled fuel (suc n / 10) i put (omega (arith, pow-suc 10 i)) (omega arith)
        (omega arith) (digit_front n (get_or put i 0) at) in
    (
      r,
      ran,
      record {
        kept = filled.kept ∙ e;
        below = omega (arith, filled.below);
        front = filled.front;
        value =
            filled.value
            ∙ rw (drop-set i digit buf l) (
                rw (dec_value-digit (suc n))
                  (ap (λ (t : ℕ). read_dec t (drop (suc i) buf)) (omega arith)));
      },
    )

read_one : (c : ℕ) → (dec_value c >>= λ d. some (0 * 10 + d)) ≡ dec_value c
read_one c = elim (Option-cases (dec_value c)) [
  | inl e ↦ rw e refl
  | inr (d, e) ↦ rw e (ap some (omega arith))
]

-- A number other than zero that is written without a zero in front is read as it is.
pub parse_dec-read :
    (n : ℕ) (cs : List ℕ)
    → n ≢ 0
    → get_or cs 0 0 ≢ b'0'
    → read_dec 0 cs ≡ some n
    → parse_dec cs ≡ some n
unfolding parse_dec
parse_dec-read n [] z f e = ground arith
parse_dec-read n (c ∷ []) z f e = sym (read_one c) ∙ e
parse_dec-read n (c ∷ d ∷ cs) z f e = let t : (c == b'0') ≡ false = ground (arith, f) in rw t e

abbrev empty : List ℕ
empty = replicate 10 0

-- The loop fills the buffer with every number other than zero.
filled :
    (n : ℕ)
    → IsU32 n
    → n ≢ 0
    → (r : ℕ × List ℕ) × (fill_dec 10 n 10 empty ≡ some r) × Filled n 10 empty r
filled n h z =
    fill_dec-Filled 10 n 10 (replicate 10 0) (omega arith) (omega arith) (omega arith) (inl z)

sent : (n : ℕ) (r : ℕ × List ℕ) → n ≢ 0 → Filled n 10 empty r → parse_dec (drop r.0 r.1) ≡ some n
sent n r z f =
    let j : r.0 + 0 ≡ r.0 = omega arith in
    parse_dec-read n (drop r.0 r.1) z (rw (get_or-drop r.0 0 r.1 0, j) f.front) f.value

pub zero_read : parse_dec (b'0' ∷ []) ≡ some 0
unfolding parse_dec dec_value
zero_read = refl

-- For every 32-bit number `uart_dec32` (also `write_u32`) runs to its end: the index stays in the
-- buffer of ten bytes, and what is sent is ten digits at most that read back as the number, with no
-- zero in front.
pub parse-uart_dec32 :
    (n : ℕ)
    → IsU32 n
    → (out : List ℕ) × (uart_dec32 n ≡ some out) × (parse_dec out ≡ some n) × length out ≤ 10
unfolding uart_dec32
parse-uart_dec32 n h = elim (ℕ_discrete n 0) [
  | yes e ↦ rw e (b'0' ∷ [], refl, zero_read, omega arith)
  | no d ↦
      let (r, ran, f) = filled n h d in
      let t : (n == 0) ≡ false = ground (arith, d) in
      let ten : length r.1 ≡ 10 = f.kept in
      (drop r.0 r.1, rw t (rw ran refl), sent n r d f, omega (arith, length-drop r.0 r.1, ten))
]

-- What a loop over the indices sends is what stands behind the first.
send_from-drop : (k i : ℕ) (buf : List ℕ) → k + i ≡ length buf → send_from k i buf ≡ drop i buf
unfolding send_from
send_from-drop zero i buf h = sym (drop-all i buf (omega arith))
send_from-drop (suc k) i buf h =
    rw (drop-cons i buf 0 (omega arith))
      (ap (λ r. get_or buf i 0 ∷ r) (send_from-drop k (suc i) buf (omega arith)))

-- `uart_dec`, with its loop over the indices, sends for every 32-bit number what `uart_dec32` sends.
pub uart_dec-uart_dec32 : (n : ℕ) → IsU32 n → uart_dec n ≡ uart_dec32 n
unfolding uart_dec uart_dec32
uart_dec-uart_dec32 n h = elim (ℕ_discrete n 0) [
  | yes e ↦ rw e refl
  | no d ↦
      let (r, ran, f) = filled n h d in
      let t : (n == 0) ≡ false = ground (arith, d) in
      let ten : length r.1 ≡ 10 = f.kept in
      let low = f.below in rw t (rw ran (ap some (send_from-drop (10 - r.0) r.0 r.1 (omega arith))))
]
