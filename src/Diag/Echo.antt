-- ===== src/Diag/Echo.antt =====
-- The echo programs (app-rot/src/bin/ipc_echo_bootmcu.rs and
-- app-coprocessor/ssp/src/bin/ipc_echo.rs), for a number of rounds of their loops.
pub mod Answered
use mcu_runtime.Base.{
  ℕ, zero, suc, ◌+◌, bit_and, Bool, true, false, if◌then◌else◌, List, [], ◌∷◌, ◌++◌, take, set,
  replicate,
}
use mcu_runtime.Base.Text.{codes}

abbrev pub ipc_ns_ca35 : ℕ
ipc_ns_ca35 = 1

-- `format_nibble` into its buffer of 16 bytes: the length, and the buffer.
unfoldable pub format_nibble : ℕ → List ℕ → ℕ × List ℕ
format_nibble n buf = (1, set buf 0 (b'0' + bit_and n 0xf))

-- The calls of the BootMCU into its hardware abstraction layer, which are parameters.
pub record Hal (M : Type 0) : Type 0 where
  pub blocking_write : List ℕ → M → M
  pub recv : ℕ → M → M × (ℕ × List ℕ)
  pub send : ℕ → ℕ → List ℕ → M → M

module _ {M : Type 0} (hal : Hal M) where
  -- One round of the loop.
  unfoldable pub echo : M → M
  unfolding format_nibble
  echo m =
      let (m1, (id, payload)) = hal.recv ipc_ns_ca35 m in
      let (len, buf) = format_nibble id (replicate 16 0) in
      let m2 = hal.blocking_write (codes "IPC recv id=") m1 in
      let m3 = hal.blocking_write (take len buf) m2 in
      let m4 = hal.blocking_write (codes "\r\n") m3 in hal.send ipc_ns_ca35 id payload m4

  unfoldable pub echoes : ℕ → M → M
  echoes zero m = m
  echoes (suc n) m = echoes n (echo m)

-- `build_msg` of the SSP, which does not look at the channel.
unfoldable pub build_msg : ℕ → List ℕ
build_msg ch = codes "IPC CH? received, echoing back\r\n"

-- The calls of the SSP: a doorbell is a channel, and `send` is false where the channel is busy.
pub record SspHal (M : Type 0) : Type 0 where
  pub write_all : List ℕ → M → M
  pub recv : M → M × ℕ
  pub send : ℕ → M → M × Bool

module _ {M : Type 0} (hal : SspHal M) where
  -- One round of the loop of the SSP.
  unfoldable pub ssp_echo : M → M
  unfolding build_msg
  ssp_echo m =
      let (m1, ch) = hal.recv m in
      let m2 = hal.write_all (build_msg ch) m1 in
      let (m3, sent) = hal.send ch m2 in
      if sent then m3 else hal.write_all (codes "echo failed: busy\r\n") m3
