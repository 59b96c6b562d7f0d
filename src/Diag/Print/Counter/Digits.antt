-- ===== src/Diag/Print/Counter/Digits.antt =====
-- The digits that the two `format_counter` collect (app-rot/src/bin/hello_uart_ast1060.rs and
-- app-coprocessor/ssp/src/bin/hello_uart.rs).
use native.Mathlib.Decide.{ℕ_discrete}
use native.Mathlib.Nat.{pow-suc}
use mcu_runtime.Base.{
  ℕ, zero, suc, ◌+◌, ◌/◌, ◌%◌, ◌^◌, ◌<◌, ◌≤◌, ◌≡◌, ◌≢◌, ◌⊎◌, inl, inr, refl, ap, ◌∙◌, false,
  if◌then◌else◌, ◌==◌, some, ◌>>=◌, List, ◌∷◌, length, get_or, set, get_or-set, get_or-set_other,
  length-set, replicate, arith,
}
use mcu_runtime.Base.Words.{IsU32, as_u8}
use mcu_runtime.Diag.Print.Decimal.{
  dec_value-digit, digit_front, read_dec, parse_dec, parse_dec-read,
}
use mcu_runtime.Diag.Print.Counter.Copied.{put-fits}
use mcu_runtime.Diag.Print.Counter.{put, fill_tmp, fill_while, reversed}

reversed-below : (i j c : ℕ) (tmp : List ℕ) → i ≤ j → reversed i (set tmp j c) ≡ reversed i tmp
unfolding reversed
reversed-below zero j c tmp h = refl
reversed-below (suc i) j c tmp h =
    rw (get_or-set_other tmp j i c 0 (λ e. omega arith), reversed-below i j c tmp (omega arith))
      refl

reversed-set :
    (i c : ℕ) (tmp : List ℕ)
    → suc i ≤ length tmp
    → reversed (suc i) (set tmp i c) ≡ c ∷ reversed i tmp
unfolding reversed
reversed-set i c tmp h = rw (get_or-set tmp i c 0 h, reversed-below i i c tmp (omega arith)) refl

-- The digits of `v` that have been collected above the first `len`.
record Collected (v k len : ℕ) (tmp : List ℕ) (r : ℕ × List ℕ) : Type 0 where
  few : r.0 ≤ len + k
  front : get_or (reversed r.0 r.1) 0 0 ≢ b'0'
  value : read_dec 0 (reversed r.0 r.1) ≡ read_dec v (reversed len tmp)

fill_while-Collected :
    (fuel v k len : ℕ) (tmp : List ℕ)
    → v < 10 ^ k
    → k ≤ fuel
    → len + k ≤ length tmp
    → (v ≢ 0) ⊎ (get_or (reversed len tmp) 0 0 ≢ b'0')
    → (r : ℕ × List ℕ) × (fill_while fuel v len tmp ≡ some r) × Collected v k len tmp r
unfolding fill_while
fill_while-Collected fuel zero k len tmp h f l (inl d) = absurd (d refl)
fill_while-Collected fuel zero k len tmp h f l (inr c) =
    ((len, tmp), refl, record { few = omega arith; front = c; value = refl })
fill_while-Collected fuel (suc v) zero len tmp h f l c = absurd (omega arith)
fill_while-Collected zero (suc v) (suc k) len tmp h f l c = absurd (omega arith)
fill_while-Collected (suc fuel) (suc v) (suc k) len tmp h f l c =
    let digit = b'0' + as_u8 (suc v % 10) in
    let tmp' = set tmp len digit in
    let e : length tmp' ≡ length tmp = length-set tmp len digit in
    let w : len + 1 ≡ suc len = omega arith in
    let s : reversed (len + 1) tmp' ≡ digit ∷ reversed len tmp =
      rw w (reversed-set len digit tmp (omega arith)) in
    let (r, ran, done) =
      fill_while-Collected fuel (suc v / 10) k (len + 1) tmp' (omega (arith, pow-suc 10 k))
        (omega arith) (omega arith)
        (digit_front v (get_or (reversed (len + 1) tmp') 0 0) (rw s refl)) in
    (
      r,
      rw (put-fits len digit tmp (omega arith)) ran,
      record {
        few = omega (arith, done.few);
        front = done.front;
        value =
            done.value
            ∙ rw s (
                rw (dec_value-digit (suc v))
                  (ap (λ (t : ℕ). read_dec t (reversed len tmp)) (omega arith)));
      },
    )

-- Where the number is not zero, the loop that tests behind its body is the loop that tests before it.
pub fill_tmp-while :
    (fuel v len : ℕ) (tmp : List ℕ) → v ≢ 0 → fill_tmp fuel v len tmp ≡ fill_while fuel v len tmp
unfolding fill_tmp fill_while
fill_tmp-while fuel zero len tmp d = absurd (d refl)
fill_tmp-while zero (suc v) len tmp d = refl
fill_tmp-while (suc fuel) (suc v) len tmp d =
    ap (λ f. put len (b'0' + as_u8 (suc v % 10)) tmp >>= f)
      (λ i tmp'.
        elim (ℕ_discrete (suc v / 10) 0)
            as (λ z.
              (if suc v / 10 == 0
                then some (len + 1, tmp')
                else fill_tmp fuel (suc v / 10) (len + 1) tmp')
              ≡ fill_while fuel (suc v / 10) (len + 1) tmp') [
                | yes e ↦ rw e refl
                | no z ↦
                    let t : (suc v / 10 == 0) ≡ false = ground (arith, z) in
                    rw t (fill_tmp-while fuel (suc v / 10) (len + 1) tmp' z)
              ]
          i)

pub length-reversed : (i : ℕ) (tmp : List ℕ) → length (reversed i tmp) ≡ i
unfolding reversed
length-reversed zero tmp = refl
length-reversed (suc i) tmp = ap suc (length-reversed i tmp)

abbrev pub empty : List ℕ
empty = replicate 10 0

nothing : (n : ℕ) → read_dec n (reversed 0 empty) ≡ some n
unfolding reversed
nothing n = refl

-- The digits of a number other than zero, in the order in which they are sent.
pub collected :
    (n : ℕ)
    → IsU32 n
    → n ≢ 0
    → (r : ℕ × List ℕ) × (fill_while 10 n 0 empty ≡ some r)
      × (r.0 ≤ 10)
      × (parse_dec (reversed r.0 r.1) ≡ some n)
collected n h z =
    let (r, ran, done) =
      fill_while-Collected 10 n 10 0 empty (omega arith) (omega arith) (omega arith) (inl z) in
    (
      r,
      ran,
      omega (arith, done.few),
      parse_dec-read n (reversed r.0 r.1) z done.front (done.value ∙ nothing n),
    )
