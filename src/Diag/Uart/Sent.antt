-- ===== src/Diag/Uart/Sent.antt =====
-- What a UART sends for the programs that poll it (app-rot/src/bin/uart5_bare.rs and others).
use native.Mathlib.Decide.{ℕ_discrete}
use mcu_runtime.Base.{
  ℕ, zero, suc, ◌+◌, bit_and, ◌≤◌, ◌<◌, ◌≡◌, ◌≢◌, refl, sym, ap, ◌∙◌, true, false, if◌then◌else◌,
  ◌==◌, Option, some, List, [], ◌∷◌, ◌++◌, append_assoc, append-nil, Bool-cases, inl, inr, arith,
}
use mcu_runtime.Diag.Uart.{Registers, lsr_thre, wait_thre, putc, puts, puts_lines, tick_hex}
use mcu_runtime.Base.Words.{as_u32}
use mcu_runtime.Base.Text.{codes}
use mcu_runtime.Diag.Print.{uart_hex32}

-- A UART as its manual describes it: `busy` counts the reads of the status until there is room, the
-- status says so, and a byte that is written where there is room is sent behind the others.
pub record Serial {M : Type 0} (io : Registers M) (base : ℕ) : Type 0 where
  pub sent : M → List ℕ
  pub busy : M → ℕ
  pub limit : ℕ
  pub read_sent : (m : M) → sent (io.read_volatile (base + 0x14) m).0 ≡ sent m
  pub read_room :
      (m : M)
      → busy m ≡ 0
      → (bit_and (io.read_volatile (base + 0x14) m).1 lsr_thre ≢ 0)
        × (busy (io.read_volatile (base + 0x14) m).0 ≡ 0)
  pub read_busy :
      (m : M)
      → busy m ≢ 0
      → (bit_and (io.read_volatile (base + 0x14) m).1 lsr_thre ≡ 0)
        × (busy (io.read_volatile (base + 0x14) m).0 < busy m)
  pub write_sent :
      (c : ℕ) (m : M) → busy m ≡ 0 → sent (io.write_volatile base c m) ≡ sent m ++ (c ∷ [])
  pub write_busy : (c : ℕ) (m : M) → busy m ≡ 0 → busy (io.write_volatile base c m) ≤ limit

-- The bytes that `hello_a35` sends for a text.
abbrev pub with_returns : List ℕ → List ℕ
with_returns [] = []
with_returns (b ∷ s) = if b == b'\n' then b'\r' ∷ b ∷ with_returns s else b ∷ with_returns s

module _ {M : Type 0} (io : Registers M) (base : ℕ) (uart : Serial io base) where
  -- A wait comes to its end where there is room, and has sent nothing.
  wait_thre-room :
      (fuel : ℕ) (m : M)
      → uart.busy m < fuel
      → (m' : M) × (wait_thre io base fuel m ≡ some m')
        × (uart.busy m' ≡ 0)
        × (uart.sent m' ≡ uart.sent m)
  unfolding wait_thre
  wait_thre-room zero m h = absurd (omega arith)
  wait_thre-room (suc fuel) m h =
      let (m1, lsr) = io.read_volatile (base + 0x14) m in
      elim (ℕ_discrete (uart.busy m) 0) [
        | yes e ↦
            let (set, room) = uart.read_room m e in
            let t : (bit_and lsr lsr_thre == 0) ≡ false = ground (arith, set) in
            (m1, rw t refl, room, uart.read_sent m)
        | no d ↦
            let (clear, less) = uart.read_busy m d in
            let t : (bit_and lsr lsr_thre == 0) ≡ true = ground (arith, clear) in
            let (m', ran, room, kept) = wait_thre-room fuel m1 (omega (arith, less)) in
            (m', rw t ran, room, kept ∙ uart.read_sent m)
      ]

  -- A routine has sent a text, and the UART has room again after at most `limit` reads.
  abbrev pub HasSent : Option M → List ℕ → M → Type 0
  HasSent r s m =
      (m' : M) × (r ≡ some m') × (uart.sent m' ≡ uart.sent m ++ s) × (uart.busy m' ≤ uart.limit)

  putc-sends :
      (fuel c : ℕ) (m : M)
      → uart.limit < fuel
      → uart.busy m ≤ uart.limit
      → HasSent (putc io base fuel c m) (c ∷ []) m
  unfolding putc
  putc-sends fuel c m f h =
      let (m1, ran, room, kept) = wait_thre-room fuel m (omega arith) in
      (
        io.write_volatile base c m1,
        rw ran refl,
        uart.write_sent c m1 room ∙ ap (λ s. s ++ (c ∷ [])) kept,
        uart.write_busy c m1 room,
      )

  then_sends :
      (m m1 : M) (s t : List ℕ) (r : Option M)
      → uart.sent m1 ≡ uart.sent m ++ s
      → HasSent r t m1
      → HasSent r (s ++ t) m
  then_sends m m1 s t r e (m', ran, sent, room) =
      (m', ran, sent ∙ rw e (append_assoc (uart.sent m) s t), room)

  -- On a UART that behaves as `Serial` says, which has room after at most `limit` reads of its status,
  -- `puts` with more than `limit` reads for each byte comes to its end, and the UART has sent every
  -- byte of the text, in order and none twice, and has room again after at most `limit` reads.
  pub puts-sends :
      (fuel : ℕ) (s : List ℕ) (m : M)
      → uart.limit < fuel
      → uart.busy m ≤ uart.limit
      → HasSent (puts io base fuel s m) s m
  unfolding puts
  puts-sends fuel [] m f h = (m, refl, sym (append-nil (uart.sent m)), h)
  puts-sends fuel (b ∷ s) m f h =
      let (m1, ran, sent, room) = putc-sends fuel b m f h in
      rw ran (then_sends m m1 (b ∷ []) s _ sent (puts-sends fuel s m1 f room))

  -- `puts_lines` sends the text with a carriage return in front of every line feed.
  pub puts_lines-sends :
      (fuel : ℕ) (s : List ℕ) (m : M)
      → uart.limit < fuel
      → uart.busy m ≤ uart.limit
      → HasSent (puts_lines io base fuel s m) (with_returns s) m
  unfolding puts_lines
  puts_lines-sends fuel [] m f h = (m, refl, sym (append-nil (uart.sent m)), h)
  puts_lines-sends fuel (b ∷ s) m f h = elim (Bool-cases (b == b'\n')) [
    | inl e ↦
        let (m1, ran1, sent1, room1) = putc-sends fuel b'\r' m f h in
        let (m2, ran2, sent2, room2) = putc-sends fuel b m1 f room1 in
        rw (e, ran1, ran2)
          (then_sends m m1 (b'\r' ∷ []) _ _ sent1
            (then_sends m1 m2 (b ∷ []) _ _ sent2 (puts_lines-sends fuel s m2 f room2)))
    | inr e ↦
        let (m2, ran2, sent2, room2) = putc-sends fuel b m f h in
        rw (e, ran2) (then_sends m m2 (b ∷ []) _ _ sent2 (puts_lines-sends fuel s m2 f room2))
  ]

  -- The lines of the loop of `uart5_bare`, for `n` rounds from a count on.
  abbrev pub tick_lines : ℕ → ℕ → List ℕ
  tick_lines zero count = []
  tick_lines (suc n) count =
      codes "tick " ++ (uart_hex32 count ++ (codes "\r\n" ++ tick_lines n (as_u32 (count + 1))))

  -- The loop of `uart5_bare` sends a line for each of its rounds, the count starting again at 0
  -- behind the largest 32-bit number.
  pub tick_hex-sends :
      (n fuel count : ℕ) (m : M)
      → uart.limit < fuel
      → uart.busy m ≤ uart.limit
      → HasSent (tick_hex io base n fuel count m) (tick_lines n count) m
  unfolding tick_hex
  tick_hex-sends zero fuel count m f h = (m, refl, sym (append-nil (uart.sent m)), h)
  tick_hex-sends (suc n) fuel count m f h =
      let (m1, ran1, sent1, room1) = puts-sends fuel (codes "tick ") m f h in
      let (m2, ran2, sent2, room2) = puts-sends fuel (uart_hex32 count) m1 f room1 in
      let (m3, ran3, sent3, room3) = puts-sends fuel (codes "\r\n") m2 f room2 in
      let rest = tick_hex-sends n fuel (as_u32 (count + 1)) m3 f room3 in
      rw (ran1, ran2, ran3)
        (then_sends m m1 (codes "tick ") _ _ sent1 (
          then_sends m1 m2 (uart_hex32 count) _ _ sent2
            (then_sends m2 m3 (codes "\r\n") _ _ sent3 rest)))
