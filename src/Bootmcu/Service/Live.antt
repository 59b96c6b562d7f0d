-- ===== src/Bootmcu/Service/Live.antt =====
-- What the loop of the BootMCU keeps (app-rot/src/bin/rot_ast2700_bootmcu.rs).
use mcu_runtime.Base.{
  ℕ, zero, suc, ◌+◌, ◌*◌, ◌/◌, ◌^◌, ◌≡◌, ◌≢◌, refl, sym, ap, ◌∙◌, bit_xor, Option, none, some, List,
  [], arith,
}
use mcu_runtime.Base.Words.{IsU32, as_u32}
use mcu_runtime.Base.Xor.{xor-zero_below, xor-below}
use mcu_runtime.Bootmcu.Load.{Bus}
use mcu_runtime.Bootmcu.Soc.{Soc, DeviceId, HwRev}
use mcu_runtime.Bootmcu.Service.{
  Service, next_seed, entropy_words, service_caliptra, serve, receive, dispatch, exchange,
  with_event, keep_alive, round, rounds, ipc_nonsecure_ca35,
}

-- A shift to the left or to the right never cancels a number of 32 bits.
left-nonzero :
    (k s : ℕ) → (as_u32 (s * k) ≡ s → s ≡ 0) → IsU32 s → s ≢ 0 → bit_xor s (as_u32 (s * k)) ≢ 0
left-nonzero k s cancel u h e =
    h (cancel (sym (xor-zero_below 32 s (as_u32 (s * k)) (omega arith) (omega arith) e)))

pub next_seed-nonzero : (s : ℕ) → IsU32 s → s ≢ 0 → (next_seed s ≢ 0) × IsU32 (next_seed s)
unfolding next_seed
next_seed-nonzero s u h =
    let s1 = bit_xor s (as_u32 (s * 2 ^ 13)) in
    let s2 = bit_xor s1 (s1 / 2 ^ 17) in
    let u1 : IsU32 s1 = xor-below 32 s (as_u32 (s * 2 ^ 13)) u (omega arith) in
    let h1 : s1 ≢ 0 = left-nonzero (2 ^ 13) s (λ c. omega (arith, c)) u h in
    let u2 : IsU32 s2 = xor-below 32 s1 (s1 / 2 ^ 17) u1 (omega arith) in
    let h2 : s2 ≢ 0 =
      λ e. h1 (let c = xor-zero_below 32 s1 (s1 / 2 ^ 17) u1 (omega arith) e in omega (arith, c)) in
    (
      left-nonzero (2 ^ 5) s2 (λ c. omega (arith, c)) u2 h2,
      xor-below 32 s2 (as_u32 (s2 * 2 ^ 5)) u2 (omega arith),
    )

module _ {M F O : Type 0} (b : Bus M) (soc : Soc M F O) where
  entropy-nonzero :
      (n s : ℕ) (m : M)
      → IsU32 s
      → s ≢ 0
      → ((entropy_words b soc n s m).0.1 ≢ 0) × IsU32 (entropy_words b soc n s m).0.1
  unfolding entropy_words
  entropy-nonzero zero s m u h = (h, u)
  entropy-nonzero (suc n) s m u h =
      let (h', u') = next_seed-nonzero s u h in
      entropy-nonzero n (next_seed s) (soc.read_timer m).0 u' h'

  -- The seed is a number of 32 bits that is not zero, the heartbeat has 32 bits, and no request
  -- waits.
  pub record IsLive (s : Service M) : Type 0 where
    pub seeded : s.seed ≢ 0
    pub seed_u32 : IsU32 s.seed
    pub heartbeat_u32 : IsU32 s.heartbeat
    pub drained : s.queue ≡ []

  -- The answer to what the mailbox held, without a queue.
  unfoldable pub answer_event : DeviceId → HwRev → Option (ℕ × List ℕ) → M → M
  answer_event dev hw none m = m
  answer_event dev hw (some event) m = serve b soc dev hw event m

  dispatch-with_event :
      (dev : DeviceId) (hw : HwRev) (r : Option (ℕ × List ℕ)) (m : M)
      → dispatch b soc dev hw (with_event r []) m ≡ (answer_event dev hw r m, [])
  unfolding dispatch answer_event
  dispatch-with_event dev hw none m = refl
  dispatch-with_event dev hw (some event) m = refl

  -- The round without a queue: a request is answered as it comes.
  unfoldable pub direct : DeviceId → HwRev → Service M → Service M
  direct dev hw s =
      let (m1, seed) = service_caliptra b soc s.seed s.hw in
      let (m2, r) = soc.try_recv ipc_nonsecure_ca35 m1 in
      let heartbeat = as_u32 (s.heartbeat + 1) in
      record {
        seed = seed;
        heartbeat = heartbeat;
        queue = [];
        hw = keep_alive b soc heartbeat (answer_event dev hw r m2);
      }

  abbrev pub direct_rounds : ℕ → DeviceId → HwRev → Service M → Service M
  direct_rounds zero dev hw s = s
  direct_rounds (suc n) dev hw s = direct_rounds n dev hw (direct dev hw s)

  pub round-direct :
      (dev : DeviceId) (hw : HwRev) (s : Service M)
      → s.queue ≡ []
      → round b soc dev hw s ≡ direct dev hw s
  unfolding round direct exchange receive
  round-direct dev hw s e =
      let m1 = (service_caliptra b soc s.seed s.hw).0 in
      let (m2, r) = soc.try_recv ipc_nonsecure_ca35 m1 in
      let x = ap (λ queue. exchange b soc dev hw queue m1) e ∙ dispatch-with_event dev hw r m2 in
      let heartbeat = as_u32 (s.heartbeat + 1) in
      ap
        (λ (q : M × List (ℕ × List ℕ)). record {
          seed = (service_caliptra b soc s.seed s.hw).1;
          heartbeat = heartbeat;
          queue = q.1;
          hw = keep_alive b soc heartbeat q.0;
        })
        x

  direct-IsLive :
      (dev : DeviceId) (hw : HwRev) (s : Service M) → IsLive s → IsLive (direct dev hw s)
  unfolding direct service_caliptra
  direct-IsLive dev hw s l =
      let (h, u) = entropy-nonzero 12 s.seed s.hw l.seed_u32 l.seeded in
      record { seeded = h; seed_u32 = u; heartbeat_u32 = omega arith; drained = refl }

  -- From a live state, in particular from the one behind the release, any number of rounds of the
  -- loop is the same as that many rounds in which a request is answered as it comes, without the
  -- queue; and it leaves a live state: the seed of the entropy has not fallen to zero, and no
  -- request waits.
  pub rounds-direct :
      (n : ℕ) (dev : DeviceId) (hw : HwRev) (s : Service M)
      → IsLive s
      → (rounds b soc n dev hw s ≡ direct_rounds n dev hw s) × IsLive (rounds b soc n dev hw s)
  unfolding rounds
  rounds-direct zero dev hw s l = (refl, l)
  rounds-direct (suc n) dev hw s l =
      rw (round-direct dev hw s l.drained)
        (rounds-direct n dev hw (direct dev hw s) (direct-IsLive dev hw s l))
