-- ===== src/Bootmcu/Service/Answered.antt =====
-- A request that comes in a round of the loop of the BootMCU
-- (app-rot/src/bin/rot_ast2700_bootmcu.rs), from the mailbox to the frame that is sent back.
use mcu_runtime.Base.{ℕ, ◌+◌, ◌≡◌, refl, ap, ◌∙◌, Option, none, some, List, []}
use mcu_runtime.Base.Words.{as_u32}
use mcu_runtime.Ipc.{Envelope}
use mcu_runtime.Ipc.Encode.Bytes.{IsStatus, IsEnvelope}
use mcu_runtime.Bootmcu.{handle_ipc}
use mcu_runtime.Bootmcu.Reply.{framed, Replied, handle_ipc-Replied}
use mcu_runtime.Bootmcu.Load.{Bus}
use mcu_runtime.Bootmcu.Soc.{Soc, DeviceId, HwRev}
use mcu_runtime.Bootmcu.Service.{
  Service, service_caliptra, rot_status, serve, keep_alive, round, ipc_nonsecure_ca35,
}
use mcu_runtime.Bootmcu.Service.Live.{IsLive, direct, answer_event, round-direct}

module _ {M F O : Type 0} (b : Bus M) (soc : Soc M F O) where
  -- What the mailbox is told of a frame.
  abbrev pub delivered : ℕ → Option (List ℕ) → M → M
  delivered id none m = m
  delivered id (some frame) m = soc.send ipc_nonsecure_ca35 id frame m

  -- What a round owes to a request that the mailbox gives: its reply is sent under its identifier,
  -- nothing else is sent, and no request waits.
  pub record Served (dev : DeviceId) (hw : HwRev) (s s' : Service M) (m : M) (id : ℕ)
      (env : Envelope) : Type 0 where
    pub sent : Option (List ℕ)
    pub replied : Replied (rot_status b soc dev hw m) env.seq env.payload sent
    pub left : s'.hw ≡ keep_alive b soc (as_u32 (s.heartbeat + 1)) (delivered id sent m)
    pub drained : s'.queue ≡ []

  sending :
      (id : ℕ) (m : M) (o : Option (List ℕ))
      → elim o as (λ _. M) [ none ↦ m | some frame ↦ soc.send ipc_nonsecure_ca35 id frame m ]
        ≡ delivered id o m
  sending id m none = refl
  sending id m (some frame) = refl

  serve-delivered :
      (dev : DeviceId) (hw : HwRev) (id : ℕ) (request : List ℕ) (m : M)
      → serve b soc dev hw (id, request) m
        ≡ delivered id (handle_ipc (rot_status b soc dev hw m) request) m
  unfolding serve rot_status handle_ipc
  serve-delivered dev hw id request m =
      sending id m (handle_ipc (rot_status b soc dev hw m) request)

  -- In a round from a live state, where the status that is reported has numbers of 32 bits, a request
  -- that a peer encoded and framed, and that the mailbox gives, is answered in that round: the reply
  -- to a ping or to a request for the status is sent under the identifier of the request, in a frame
  -- that the peer's decoder reads with the sequence number of the request; nothing is sent for another
  -- envelope, and no request is left waiting.
  pub round-Served :
      (dev : DeviceId) (hw : HwRev) (s : Service M) (m : M) (id : ℕ) (env : Envelope) (pad : List ℕ)
      → IsLive b soc s
      → IsStatus (rot_status b soc dev hw m)
      → IsEnvelope env
      → soc.try_recv ipc_nonsecure_ca35 (service_caliptra b soc s.seed s.hw).0
        ≡ (m, some (id, framed env pad))
      → Served dev hw s (round b soc dev hw s) m id env
  unfolding direct answer_event
  round-Served dev hw s m id env pad live status valid received =
      let same = round-direct b soc dev hw s live.drained in
      let answered = ap (λ x. answer_event b soc dev hw x.1 x.0) received in
      record {
        sent = handle_ipc (rot_status b soc dev hw m) (framed env pad);
        replied = handle_ipc-Replied (rot_status b soc dev hw m) env pad status valid;
        left =
            ap (λ x. x.hw) same
            ∙ ap (keep_alive b soc (as_u32 (s.heartbeat + 1)))
                (answered ∙ serve-delivered dev hw id (framed env pad) m);
        drained = ap (λ x. x.queue) same;
      }
