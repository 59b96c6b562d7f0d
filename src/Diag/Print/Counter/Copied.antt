-- ===== src/Diag/Print/Counter/Copied.antt =====
-- The copies into the line of `format_counter` (app-rot/src/bin/hello_uart_ast1060.rs and
-- app-coprocessor/ssp/src/bin/hello_uart.rs).
use mcu_runtime.Base.{
  ℕ, zero, suc, ◌+◌, ◌-◌, ◌≤◌, ◌≡◌, refl, sym, ap, ◌∙◌, true, ltb, some, ◌>>=◌, List, [], ◌∷◌, ◌++◌,
  length, get_or, set, length-set, take, take-set, append_assoc, append-nil, arith,
}
use mcu_runtime.Base.Text.{codes}
use mcu_runtime.Diag.Print.Counter.{put, reversed, copy_down, copy_from_slice, end_line}

pub put-fits : (i v : ℕ) (buf : List ℕ) → suc i ≤ length buf → put i v buf ≡ some (set buf i v)
put-fits i v buf h = let t : ltb i (length buf) ≡ true = ground arith in rw t refl

-- A slice that has room is copied behind what the buffer holds.
pub record Copied (pos : ℕ) (s buf buf' : List ℕ) : Type 0 where
  pub kept : length buf' ≡ length buf
  pub held : take (pos + length s) buf' ≡ take pos buf ++ s

pub copy_from_slice-Copied :
    (s : List ℕ) (pos : ℕ) (buf : List ℕ)
    → pos + length s ≤ length buf
    → (buf' : List ℕ) × (copy_from_slice pos s buf ≡ some buf') × Copied pos s buf buf'
unfolding copy_from_slice
copy_from_slice-Copied [] pos buf h = (
  buf,
  refl,
  record {
    kept = refl;
    held = (let e : pos + 0 ≡ pos = omega arith in rw e (sym (append-nil (take pos buf))));
  },
)
copy_from_slice-Copied (c ∷ s) pos buf h =
    let put' = set buf pos c in
    let n : length put' ≡ length buf = length-set buf pos c in
    let (buf', ran, done) = copy_from_slice-Copied s (pos + 1) put' (omega arith) in
    let e : pos + suc (length s) ≡ pos + 1 + length s = omega arith in
    let w : pos + 1 ≡ suc pos = omega arith in
    let t : take (pos + 1) put' ≡ take pos buf ++ (c ∷ []) =
      rw w (take-set pos c buf (omega arith)) in
    (
      buf',
      rw (put-fits pos c buf (omega arith)) ran,
      record {
        kept = done.kept ∙ n;
        held = rw e (done.held ∙ rw t (append_assoc (take pos buf) (c ∷ []) s));
      },
    )

pub copy_down-slice :
    (i pos : ℕ) (tmp buf : List ℕ)
    → pos + i + 2 ≤ length buf
    → copy_down i tmp pos buf
      ≡ (copy_from_slice pos (reversed i tmp) buf >>= λ b. some (pos + i, b))
unfolding copy_down copy_from_slice reversed
copy_down-slice zero pos tmp buf h = ap (λ (p : ℕ). some (p, buf)) (omega arith)
copy_down-slice (suc i) pos tmp buf h =
    let c = get_or tmp i 0 in
    let room : ltb pos (length buf - 2) ≡ true = ground arith in
    let n : length (set buf pos c) ≡ length buf = length-set buf pos c in
    let w : pos + suc i ≡ pos + 1 + i = omega arith in
    rw (room, put-fits pos c buf (omega arith), w)
      (copy_down-slice i (pos + 1) tmp (set buf pos c) (omega arith))

pub end_line_lem :
    (pos : ℕ) (buf : List ℕ)
    → pos + 2 ≤ length buf
    → end_line pos buf ≡ some (take pos buf ++ codes "\r\n")
unfolding end_line
end_line_lem pos buf h =
    let buf1 = set buf pos b'\r' in
    let n : length buf1 ≡ length buf = length-set buf pos b'\r' in
    let (w, w1) : (pos + 2 ≡ suc (suc pos)) × (pos + 1 ≡ suc pos) = (omega arith, omega arith) in
    rw (put-fits pos b'\r' buf (omega arith), w, w1, put-fits (suc pos) b'\n' buf1 (omega arith))
      (ap some (
        take-set (suc pos) b'\n' buf1 (omega arith)
        ∙ rw (take-set pos b'\r' buf (omega arith))
            (append_assoc (take pos buf) (b'\r' ∷ []) (b'\n' ∷ []))))
