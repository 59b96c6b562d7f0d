-- ===== src/Diag/Print/Hex.antt =====
-- Hexadecimal numbers that are printed (app-rot/src/bin) and read back.
use native.Mathlib.Nat.{pow-suc, div-div-eq-div-mul}
use mcu_runtime.Base.{
  ℕ, zero, suc, ◌+◌, ◌-◌, ◌*◌, ◌/◌, ◌^◌, ◌<◌, ◌≡◌, refl, sym, ap, ◌∙◌, if◌then◌else◌, leb, ◌==◌,
  ==_iff, ◌&&◌, Bool, true, Option, none, some, ◌>>=◌, List, [], ◌∷◌, get_or, arith, all_to,
  all_to-below,
}
use mcu_runtime.Base.Words.{IsU32, as_u8}
use mcu_runtime.Base.Bits.{and_0xf}
use mcu_runtime.Diag.Print.{nibble, hex_digit, hex_table, hex_from, fill_hex, print_hex, uart_hex32}

-- What a reader takes a digit for.
unfoldable pub hex_value : ℕ → Option ℕ
hex_value c =
    if leb b'0' c && leb c b'9'
    then some (c - b'0')
    else if leb b'a' c && leb c b'f'
    then some (c - b'a' + 10)
    else none

abbrev pub read_hex : ℕ → List ℕ → Option ℕ
read_hex a [] = some a
read_hex a (c ∷ cs) = do d ← hex_value c; read_hex (a * 16 + d) cs

unfoldable pub parse_hex : List ℕ → Option ℕ
parse_hex cs = read_hex 0 cs

table_digit : all_to 16 (λ n. get_or hex_table n 0 == hex_digit n) ≡ true
unfolding hex_digit
table_digit = refl

-- The two ways to print a digit agree.
get_or-digit : (n : ℕ) → n < 16 → get_or hex_table n 0 ≡ hex_digit n
get_or-digit n h =
    let same : ℕ → Bool = λ k. get_or hex_table k 0 == hex_digit k in
    (==_iff (get_or hex_table n 0) (hex_digit n)).0 (all_to-below 16 same table_digit n h)

hex_value-digit : (n : ℕ) → n < 16 → hex_value (hex_digit n) ≡ some n
unfolding hex_value hex_digit
hex_value-digit n h = ground arith

hex_value-table : (n : ℕ) → n < 16 → hex_value (get_or hex_table n 0) ≡ some n
hex_value-table n h = rw (get_or-digit n h) (hex_value-digit n h)

nibble_below : (val i : ℕ) → nibble val i < 16
nibble_below val i = omega (arith, and_0xf (val / 2 ^ (i * 4)))

pow_step : (k : ℕ) → 2 ^ suc (suc (suc (suc k))) ≡ 2 ^ k * 16
pow_step k =
    omega (
      arith,
      pow-suc 2 k,
      pow-suc 2 (suc k),
      pow-suc 2 (suc (suc k)),
      pow-suc 2 (suc (suc (suc k))),
    )

-- The digits above `i` and the digit at `i` are those above `i - 1`.
above : (val i : ℕ) → val / 2 ^ (suc i * 4) * 16 + nibble val i ≡ val / 2 ^ (i * 4)
above val i =
    let e : suc i * 4 ≡ suc (suc (suc (suc (i * 4)))) = omega arith in
    rw e (
      omega (
        arith,
        ap (λ (t : ℕ). val / t) (pow_step (i * 4)),
        div-div-eq-div-mul val (2 ^ (i * 4)) 16,
        and_0xf (val / 2 ^ (i * 4)),
      ))

read-hex_from : (i val : ℕ) → read_hex (val / 2 ^ (i * 4)) (hex_from i val) ≡ some val
unfolding hex_from
read-hex_from zero val = ap some (omega arith)
read-hex_from (suc i) val =
    rw (hex_value-table (nibble val i) (nibble_below val i))
      (rw (above val i) (read-hex_from i val))

-- Every 32-bit number that `uart_hex32` (also `uart5_hex32`, `write_hex`) prints is read back from
-- its eight digits.
pub parse-uart_hex32 : (val : ℕ) → IsU32 val → parse_hex (uart_hex32 val) ≡ some val
unfolding parse_hex uart_hex32
parse-uart_hex32 val h =
    let e : val / 2 ^ (8 * 4) ≡ 0 = omega arith in
    ap (λ (t : ℕ). read_hex t (hex_from 8 val)) (sym e) ∙ read-hex_from 8 val

computed : (val i : ℕ) → hex_digit (as_u8 (nibble val i)) ≡ get_or hex_table (nibble val i) 0
computed val i =
    let e : as_u8 (nibble val i) ≡ nibble val i = omega (arith, nibble_below val i) in
    rw e (sym (get_or-digit (nibble val i) (nibble_below val i)))

-- `print_hex`, which computes its digits and fills a buffer from the front, sends the bytes that
-- `uart_hex32` takes from a table from the back.
pub print_hex-uart_hex32 : (val : ℕ) → print_hex val ≡ uart_hex32 val
unfolding print_hex uart_hex32 fill_hex hex_from
print_hex-uart_hex32 val =
    rw
      (
        computed val 7,
        computed val 6,
        computed val 5,
        computed val 4,
        computed val 3,
        computed val 2,
        computed val 1,
        computed val 0,
      )
      refl
