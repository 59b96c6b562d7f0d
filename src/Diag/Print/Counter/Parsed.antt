-- ===== src/Diag/Print/Counter/Parsed.antt =====
-- The lines of `format_counter` (app-rot/src/bin/hello_uart_ast1060.rs and
-- app-coprocessor/ssp/src/bin/hello_uart.rs) are whole, and their numbers are read back.
use native.Mathlib.Decide.{ℕ_discrete}
use mcu_runtime.Base.{
  ℕ, ◌+◌, ◌≤◌, ◌≡◌, refl, ap, ◌∙◌, false, ◌==◌, some, ◌>>=◌, List, [], ◌∷◌, ◌++◌, length, take,
  replicate, arith,
}
use mcu_runtime.Base.Words.{IsU32}
use mcu_runtime.Base.Text.{codes}
use mcu_runtime.Diag.Print.Decimal.{parse_dec, zero_read}
use mcu_runtime.Diag.Print.Counter.Copied.{copy_from_slice-Copied, copy_down-slice, end_line_lem}
use mcu_runtime.Diag.Print.Counter.Digits.{fill_tmp-while, length-reversed, empty, collected}
use mcu_runtime.Diag.Print.Counter.{
  reversed, copy_down, copy_from_slice, end_line, format_tick, format_count,
}

-- The prefix of a line, and the line that ends behind its digits.
line :
    (p s : List ℕ)
    → length p + length s + 2 ≤ 32
    → (copy_from_slice 0 p (replicate 32 0) >>= λ buf.
        copy_from_slice (length p) s buf >>= λ buf'. end_line (length p + length s) buf')
      ≡ some ((p ++ s) ++ codes "\r\n")
line p s h =
    let (b1, r1, c1) = copy_from_slice-Copied p 0 (replicate 32 0) (omega arith) in
    let n1 : length b1 ≡ 32 = c1.kept in
    let (b2, r2, c2) = copy_from_slice-Copied s (length p) b1 (omega arith) in
    let n2 : length b2 ≡ 32 = c2.kept ∙ n1 in
    let held : take (length p) b1 ≡ p = ap (λ (t : ℕ). take t b1) (omega arith) ∙ c1.held in
    rw (r1, r2, end_line_lem (length p + length s) b2 (omega arith), c2.held, held) refl

tick :
    (len : ℕ) (tmp : List ℕ)
    → len ≤ 10
    → (copy_from_slice 0 (codes "tick: ") (replicate 32 0) >>= λ buf.
        copy_down len tmp 6 buf >>= λ x. end_line x.0 x.1)
      ≡ some ((codes "tick: " ++ reversed len tmp) ++ codes "\r\n")
tick len tmp h =
    let (b1, r1, c1) = copy_from_slice-Copied (codes "tick: ") 0 (replicate 32 0) (omega arith) in
    let n1 : length b1 ≡ 32 = c1.kept in
    let n2 : length (reversed len tmp) ≡ len = length-reversed len tmp in
    let (b2, r2, c2) = copy_from_slice-Copied (reversed len tmp) 6 b1 (omega arith) in
    let n3 : length b2 ≡ 32 = c2.kept ∙ n1 in
    let held : take (6 + len) b2 ≡ codes "tick: " ++ reversed len tmp =
      ap (λ (t : ℕ). take t b2) (omega arith) ∙ c2.held ∙ ap (λ x. x ++ reversed len tmp) c1.held in
    rw
      (
        r1,
        copy_down-slice len 6 tmp b1 (omega arith),
        r2,
        end_line_lem (6 + len) b2 (omega arith),
        held,
      )
      refl

-- For every 32-bit number the `format_counter` of the SSP runs to its end within its buffers, and
-- its line is the prefix, the digits, from which the number is read back, and the end of the line.
pub format_count-parse :
    (n : ℕ)
    → IsU32 n
    → (digits : List ℕ) × (format_count n ≡ some ((codes "count = " ++ digits) ++ codes "\r\n"))
      × (parse_dec digits ≡ some n)
unfolding format_count
format_count-parse n h = elim (ℕ_discrete n 0) [
  | yes e ↦ (b'0' ∷ [], rw e refl, rw e zero_read)
  | no d ↦
      let (r, ran, few, parsed) = collected n h d in
      let digits = reversed r.0 r.1 in
      let t : (n == 0) ≡ false = ground (arith, d) in
      (
        digits,
        rw t (rw ran (line (codes "count = ") digits (omega (arith, length-reversed r.0 r.1)))),
        parsed,
      )
]

-- For every 32-bit number the `format_counter` of the AST1060 runs to its end within its buffers,
-- with room for every digit, and its line is the prefix, the digits, from which the number is read
-- back, and the end of the line.
pub format_tick-parse :
    (n : ℕ)
    → IsU32 n
    → (digits : List ℕ) × (format_tick n ≡ some ((codes "tick: " ++ digits) ++ codes "\r\n"))
      × (parse_dec digits ≡ some n)
unfolding format_tick
format_tick-parse n h = elim (ℕ_discrete n 0) [
  | yes e ↦ (b'0' ∷ [], rw e refl, rw e zero_read)
  | no d ↦
      let (r, ran, few, parsed) = collected n h d in
      let digits = reversed r.0 r.1 in
      let same = fill_tmp-while 10 n 0 empty d in
      (digits, rw same (rw ran (tick r.0 r.1 few)), parsed)
]
