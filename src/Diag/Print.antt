-- ===== src/Diag/Print.antt =====
-- The routines with which the diagnostic programs print numbers (app-rot/src/bin). What is sent to
-- the UART is a list of bytes.
pub mod Hex
pub mod Decimal
pub mod Counter
use mcu_runtime.Base.{
  ℕ, zero, suc, ◌+◌, ◌-◌, ◌*◌, ◌/◌, ◌%◌, ◌^◌, bit_and, Bool, if◌then◌else◌, ltb, ◌==◌, Option, none,
  some, ◌>>=◌, List, [], ◌∷◌, ◌++◌, length, get_or, set, take, drop, replicate,
}
use mcu_runtime.Base.Words.{as_u8}

-- `(val >> (i * 4)) & 0xF`.
abbrev pub nibble : ℕ → ℕ → ℕ
nibble val i = bit_and (val / 2 ^ (i * 4)) 0xF

-- The digit in the loop of `print_hex`.
unfoldable pub hex_digit : ℕ → ℕ
hex_digit n = if ltb n 10 then b'0' + n else b'a' + n - 10

-- The loop of `print_hex` from `i` on, for `n` digits.
unfoldable pub fill_hex : ℕ → ℕ → ℕ → List ℕ → List ℕ
unfolding hex_digit
fill_hex zero i val buf = buf
fill_hex (suc n) i val buf =
    fill_hex n (suc i) val (set buf i (hex_digit (as_u8 (nibble val (7 - i)))))

unfoldable pub print_hex : ℕ → List ℕ
unfolding fill_hex
print_hex val = fill_hex 8 0 val (replicate 8 b'0')

-- `b"0123456789abcdef"`.
abbrev pub hex_table : List ℕ
hex_table = 48 ∷ 49 ∷ 50 ∷ 51 ∷ 52 ∷ 53 ∷ 54 ∷ 55 ∷ 56 ∷ 57 ∷ 97 ∷ 98 ∷ 99 ∷ 100 ∷ 101 ∷ 102 ∷ []

-- The loops over `(0..8).rev()`, for the `n` lowest digits.
unfoldable pub hex_from : ℕ → ℕ → List ℕ
hex_from zero val = []
hex_from (suc i) val = get_or hex_table (nibble val i) 0 ∷ hex_from i val

unfoldable pub uart_hex32 : ℕ → List ℕ
unfolding hex_from
uart_hex32 val = hex_from 8 val

unfoldable pub write_hex_byte : ℕ → List ℕ
write_hex_byte val = get_or hex_table (val / 2 ^ 4) 0 ∷ get_or hex_table (bit_and val 0xF) 0 ∷ []

-- `while n > 0 { i -= 1; buf[i] = ...; n /= 10 }`: none where `i -= 1` would go below zero, or
-- where the fuel is used up.
unfoldable pub fill_dec : ℕ → ℕ → ℕ → List ℕ → Option (ℕ × List ℕ)
fill_dec fuel zero i buf = some (i, buf)
fill_dec zero (suc n) i buf = none
fill_dec (suc fuel) (suc n) zero buf = none
fill_dec (suc fuel) (suc n) (suc i) buf =
    fill_dec fuel (suc n / 10) i (set buf i (b'0' + as_u8 (suc n % 10)))

-- `uart_dec32`, `write_u32`: the buffer has ten bytes, and what is behind `i` is sent.
unfoldable pub uart_dec32 : ℕ → Option (List ℕ)
unfolding fill_dec
uart_dec32 n =
    if n == 0
    then some (b'0' ∷ [])
    else do (i, buf) ← fill_dec 10 n 10 (replicate 10 0); some (drop i buf)

-- `while i < 10 { uart_putc(buf[i]); i += 1 }`.
unfoldable pub send_from : ℕ → ℕ → List ℕ → List ℕ
send_from zero i buf = []
send_from (suc n) i buf = let rest = send_from n (suc i) buf in get_or buf i 0 ∷ rest

-- The same with a loop over the indices.
unfoldable pub uart_dec : ℕ → Option (List ℕ)
unfolding fill_dec send_from
uart_dec n =
    if n == 0
    then some (b'0' ∷ [])
    else do (i, buf) ← fill_dec 10 n 10 (replicate 10 0); some (send_from (10 - i) i buf)
