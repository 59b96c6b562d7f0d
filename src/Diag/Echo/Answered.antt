-- ===== src/Diag/Echo/Answered.antt =====
-- What the echo program of the BootMCU (app-rot/src/bin/ipc_echo_bootmcu.rs) sends.
use mcu_runtime.Base.{
  ℕ, ◌+◌, ◌<◌, ◌≡◌, refl, ap, ◌∙◌, sym, List, [], ◌∷◌, ◌++◌, append_assoc, append-nil, replicate,
  length, arith,
}
use mcu_runtime.Base.Bits.{and_0xf}
use mcu_runtime.Diag.Echo.{Hal, ipc_ns_ca35, format_nibble, echo, echoes}

-- A mailbox: what comes in, which starts again with an empty message behind the last, what the
-- program has sent, and what it has printed.
pub record Mailbox : Type 0 where
  pub inbox : List (ℕ × List ℕ)
  pub outbox : List (ℕ × (ℕ × List ℕ))
  pub printed : List ℕ

abbrev next : Mailbox → Mailbox × (ℕ × List ℕ)
next m = elim m.inbox [ [] ↦ (m, (0, [])) | message ∷ rest ↦ (record m { inbox = rest }, message) ]

abbrev pub mailbox : Hal Mailbox
mailbox = record {
  blocking_write = λ s m. record m { printed = m.printed ++ s };
  recv = λ channel m. next m;
  send = λ channel id payload m. record m { outbox = m.outbox ++ ((channel, (id, payload)) ∷ []) };
}

-- The messages with the channel to which they go back.
abbrev pub returned : List (ℕ × List ℕ) → List (ℕ × (ℕ × List ℕ))
returned [] = []
returned (message ∷ rest) = (ipc_ns_ca35, message) ∷ returned rest

-- After as many rounds as there are messages the program has sent every message back, in order,
-- under its identifier and with its payload, and has none left.
pub echoes-returned :
    (messages : List (ℕ × List ℕ)) (sent : List (ℕ × (ℕ × List ℕ))) (text : List ℕ)
    → let m =
        echoes mailbox
          (length messages)
          (record { inbox = messages; outbox = sent; printed = text }) in
      (m.outbox ≡ sent ++ returned messages) × (m.inbox ≡ [])
unfolding echoes echo
echoes-returned [] sent text = (sym (append-nil sent), refl)
echoes-returned ((id, payload) ∷ rest) sent text =
    let (o, i) = echoes-returned rest (sent ++ ((ipc_ns_ca35, (id, payload)) ∷ [])) _ in
    (o ∙ append_assoc sent ((ipc_ns_ca35, (id, payload)) ∷ []) (returned rest), i)

-- The identifier is printed as a digit where it is one.
pub format_nibble-digit :
    (id : ℕ) → id < 10 → (format_nibble id (replicate 16 0)).1 ≡ (b'0' + id) ∷ replicate 15 0
unfolding format_nibble
format_nibble-digit id h = ap (λ c. c ∷ replicate 15 0) (omega (arith, and_0xf id))
