-- ===== src/Bootmcu/Service.antt =====
-- The loop of the BootMCU after the release (app-rot/src/bin/rot_ast2700_bootmcu.rs). The timer
-- between two rounds is not modelled.
pub mod Live
pub mod Answered
use mcu_runtime.Base.{
  ℕ, zero, suc, ◌+◌, ◌*◌, ◌/◌, ◌%◌, ◌^◌, bit_or, bit_xor, Bool, true, false, ◌&&◌, if◌then◌else◌,
  ltb, ◌==◌, Option, none, some, List, [], ◌∷◌, ◌++◌, length,
}
use mcu_runtime.Base.Words.{as_u32}
use mcu_runtime.Ipc.{RotStatus}
use mcu_runtime.Bootmcu.{handle_ipc}
use mcu_runtime.Bootmcu.Load.{Bus}
use mcu_runtime.Bootmcu.Soc.{Soc, DeviceId, HwRev, secure_boot_enabled}

-- The three shifts of `entropy`.
unfoldable pub next_seed : ℕ → ℕ
next_seed s =
    let s1 = bit_xor s (as_u32 (s * 2 ^ 13)) in
    let s2 = bit_xor s1 (s1 / 2 ^ 17) in bit_xor s2 (as_u32 (s2 * 2 ^ 5))

unfoldable pub pack_silicon_rev : DeviceId → HwRev → ℕ
pack_silicon_rev dev hw = bit_or (device dev * 2 ^ 16) (rev hw)
  where
    device : DeviceId → ℕ
    device DeviceId.ast2750 = 0x2750
    device DeviceId.unknown = 0x27ff

    rev : HwRev → ℕ
    rev HwRev.a1 = 1
    rev HwRev.a2 = 2
    rev HwRev.unknown = 0

-- `Queue::<IpcEvent, 8>`, which holds seven events: an identifier and the request.
abbrev pub queue_capacity : ℕ
queue_capacity = 7

abbrev pub ipc_nonsecure_ca35 : ℕ
ipc_nonsecure_ca35 = 1

-- What the loop keeps, with the hardware.
pub record Service (M : Type 0) : Type 0 where
  pub seed : ℕ
  pub heartbeat : ℕ
  pub queue : List (ℕ × List ℕ)
  pub hw : M

-- `let _ = ipc_queue.enqueue(...)`.
abbrev pub enqueue : ℕ × List ℕ → List (ℕ × List ℕ) → List (ℕ × List ℕ)
enqueue event queue = if ltb (length queue) queue_capacity then queue ++ (event ∷ []) else queue

abbrev pub with_event : Option (ℕ × List ℕ) → List (ℕ × List ℕ) → List (ℕ × List ℕ)
with_event none queue = queue
with_event (some event) queue = enqueue event queue

module _ {M F O : Type 0} (b : Bus M) (soc : Soc M F O) where
  -- The loop of `entropy`, for `n` words.
  unfoldable pub entropy_words : ℕ → ℕ → M → (M × ℕ) × List ℕ
  unfolding next_seed
  entropy_words zero seed m = ((m, seed), [])
  entropy_words (suc n) seed m =
      let seed' = next_seed seed in
      let (m', word) = soc.read_timer m in
      let (rest, words) = entropy_words n seed' m' in (rest, bit_xor seed' word ∷ words)

  unfoldable pub service_caliptra : ℕ → M → M × ℕ
  unfolding entropy_words
  service_caliptra seed m =
      let ((m', seed'), words) = entropy_words 12 seed m in (soc.feed_trng words m', seed')

  unfoldable pub rot_status : DeviceId → HwRev → M → RotStatus
  unfolding pack_silicon_rev
  rot_status dev hw m = record {
    silicon_rev = pack_silicon_rev dev hw;
    caliptra_flow_status = soc.flow_status m;
    caliptra_boot_status = soc.boot_status m;
    secure_boot_enabled = secure_boot_enabled b m;
    caliptra_rt_ready = soc.is_rdy_for_rt m;
  }

  -- `handle_ipc`, with the reply sent.
  unfoldable pub serve : DeviceId → HwRev → ℕ × List ℕ → M → M
  unfolding rot_status handle_ipc
  serve dev hw (id, request) m = elim (handle_ipc (rot_status dev hw m) request) [
    | none ↦ m
    | some frame ↦ soc.send ipc_nonsecure_ca35 id frame m
  ]

  -- The request of this round, if there is one, into the queue.
  unfoldable pub receive : List (ℕ × List ℕ) → M → M × List (ℕ × List ℕ)
  receive queue m = let (m', r) = soc.try_recv ipc_nonsecure_ca35 m in (m', with_event r queue)

  -- The oldest request out of the queue, and its answer.
  unfoldable pub dispatch : DeviceId → HwRev → List (ℕ × List ℕ) → M → M × List (ℕ × List ℕ)
  dispatch dev hw [] m = (m, [])
  dispatch dev hw (event ∷ queue) m = (serve dev hw event m, queue)

  -- The keepalive, at every hundredth beat.
  unfoldable pub keep_alive : ℕ → M → M
  keep_alive heartbeat m = if heartbeat % 100 == 0 && soc.is_rdy_for_rt m then soc.fw_info m else m

  -- The two `if let` of a round.
  unfoldable pub exchange : DeviceId → HwRev → List (ℕ × List ℕ) → M → M × List (ℕ × List ℕ)
  exchange dev hw queue m = let (m', queue') = receive queue m in dispatch dev hw queue' m'

  -- One round of the loop.
  unfoldable pub round : DeviceId → HwRev → Service M → Service M
  round dev hw s =
      let (m1, seed) = service_caliptra s.seed s.hw in
      let (m2, queue) = exchange dev hw s.queue m1 in
      let heartbeat = as_u32 (s.heartbeat + 1) in
      record { seed = seed; heartbeat = heartbeat; queue = queue; hw = keep_alive heartbeat m2 }

  unfoldable pub rounds : ℕ → DeviceId → HwRev → Service M → Service M
  rounds zero dev hw s = s
  rounds (suc n) dev hw s = rounds n dev hw (round dev hw s)
