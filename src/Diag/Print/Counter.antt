-- ===== src/Diag/Print/Counter.antt =====
-- The two `format_counter` (app-rot/src/bin/hello_uart_ast1060.rs and
-- app-coprocessor/ssp/src/bin/hello_uart.rs). Both collect the digits in `tmp`, the lowest first;
-- none is a write behind the end of a buffer, or fuel that is used up.
pub mod Copied
pub mod Digits
pub mod Parsed
use mcu_runtime.Base.{
  ℕ, zero, suc, ◌+◌, ◌-◌, ◌/◌, ◌%◌, Bool, if◌then◌else◌, ltb, leb, ◌==◌, Option, none, some, ◌>>=◌,
  List, [], ◌∷◌, ◌++◌, length, get_or, set, take, replicate,
}
use mcu_runtime.Base.Words.{as_u8}
use mcu_runtime.Base.Text.{codes}

-- `buf[i] = v`.
abbrev pub put : ℕ → ℕ → List ℕ → Option (List ℕ)
put i v buf = if ltb i (length buf) then some (set buf i v) else none

-- `loop { tmp[len] = ...; len += 1; v /= 10; if v == 0 { break; } }`.
unfoldable pub fill_tmp : ℕ → ℕ → ℕ → List ℕ → Option (ℕ × List ℕ)
fill_tmp zero v len tmp = none
fill_tmp (suc fuel) v len tmp = do
  tmp' ← put len (b'0' + as_u8 (v % 10)) tmp
  let rest = fill_tmp fuel (v / 10) (len + 1) tmp'
  if v / 10 == 0 then some (len + 1, tmp') else rest

-- The loop over `(0..len).rev()`, with its test for room.
unfoldable pub copy_down : ℕ → List ℕ → ℕ → List ℕ → Option (ℕ × List ℕ)
copy_down zero tmp pos buf = some (pos, buf)
copy_down (suc i) tmp pos buf =
    if ltb pos (length buf - 2)
    then (do buf' ← put pos (get_or tmp i 0) buf; copy_down i tmp (pos + 1) buf')
    else copy_down i tmp pos buf

-- `buf[pos..pos + s.len()].copy_from_slice(s)`.
unfoldable pub copy_from_slice : ℕ → List ℕ → List ℕ → Option (List ℕ)
copy_from_slice pos [] buf = some buf
copy_from_slice pos (c ∷ s) buf = do buf' ← put pos c buf; copy_from_slice (pos + 1) s buf'

-- The carriage return and the line feed at the end, and `&buf[..pos]`.
unfoldable pub end_line : ℕ → List ℕ → Option (List ℕ)
end_line pos buf = do
  buf1 ← put pos b'\r' buf
  buf2 ← put (pos + 1) b'\n' buf1
  some (take (pos + 2) buf2)

-- `format_counter` of hello_uart_ast1060.
unfoldable pub format_tick : ℕ → Option (List ℕ)
unfolding fill_tmp copy_down copy_from_slice end_line
format_tick n = do
  buf ← copy_from_slice 0 (codes "tick: ") (replicate 32 0)
  (len, tmp) ← fill_tmp 10 n 0 (replicate 10 0)
  (pos, buf') ← copy_down len tmp 6 buf
  end_line pos buf'

-- `while v > 0 { tmp[tlen] = ...; tlen += 1; v /= 10; }`.
unfoldable pub fill_while : ℕ → ℕ → ℕ → List ℕ → Option (ℕ × List ℕ)
fill_while fuel zero tlen tmp = some (tlen, tmp)
fill_while zero (suc v) tlen tmp = none
fill_while (suc fuel) (suc v) tlen tmp = do
  tmp' ← put tlen (b'0' + as_u8 (suc v % 10)) tmp
  fill_while fuel (suc v / 10) (tlen + 1) tmp'

-- `tmp[..tlen]` after its `reverse`.
unfoldable pub reversed : ℕ → List ℕ → List ℕ
reversed zero tmp = []
reversed (suc i) tmp = get_or tmp i 0 ∷ reversed i tmp

-- The slice of `tmp` that holds the digits.
unfoldable pub count_digits : ℕ → Option (List ℕ)
unfolding fill_while reversed
count_digits n =
    if n == 0
    then some (b'0' ∷ [])
    else do (tlen, tmp) ← fill_while 10 n 0 (replicate 10 0); some (reversed tlen tmp)

-- `format_counter` of hello_uart on the SSP.
unfoldable pub format_count : ℕ → Option (List ℕ)
unfolding count_digits copy_from_slice end_line
format_count n = do
  buf ← copy_from_slice 0 (codes "count = ") (replicate 32 0)
  digits ← count_digits n
  buf' ← copy_from_slice 8 digits buf
  end_line (8 + length digits) buf'
