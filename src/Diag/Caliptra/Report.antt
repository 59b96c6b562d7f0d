-- ===== src/Diag/Caliptra/Report.antt =====
-- What the handshake with Caliptra (app-rot/src/bin/caliptra_hello_bootmcu.rs) comes to.
use mcu_runtime.Base.{
  ℕ, ◌≡◌, refl, sym, ap, ◌∙◌, ◌↔◌, inl, inr, Bool, true, false, not, ◌||◌, ◌==◌, Bool-cases, Option,
  none, some, List, Result, ok, err,
}
use mcu_runtime.Base.Text.{codes}
use mcu_runtime.Bootmcu.Halt.{Boot, ◌>>=◌, ◌>>◌, call}
use mcu_runtime.Diag.Decides.{ends, is_ok, Decides, bind_Decides, both}
use mcu_runtime.Diag.Entropy.{timer_entropy}
use mcu_runtime.Diag.Caliptra.{Hal, CptraError, FwInfo, Capabilities, FipsVersion, print}
use mcu_runtime.Diag.Caliptra.Queries.{
  print_error, print_fw_info, print_capabilities, print_fips_version, print_queries,
}
use mcu_runtime.Diag.Caliptra.Hello.{print_errors, print_state, waited, caliptra_hello}

module _ {M : Type 0} (hal : Hal M) where
  -- A part that always goes on.
  abbrev Goes : {A : Type 0} → Boot M A → Type 0
  Goes p = Decides p (Unit {0})

  print_error-Goes : (e : CptraError) → Goes (print_error hal e)
  unfolding print_error print ends
  print_error-Goes e m = (λ h. tt, λ h. refl)

  print_fw_info-Goes : (r : Result FwInfo CptraError) → Goes (print_fw_info hal r)
  unfolding print_fw_info print ends
  print_fw_info-Goes (ok info) m = (λ h. tt, λ h. refl)
  print_fw_info-Goes (err e) m = print_error-Goes e m

  print_capabilities-Goes : (r : Result Capabilities CptraError) → Goes (print_capabilities hal r)
  unfolding print_capabilities print ends
  print_capabilities-Goes (ok cap) m = (λ h. tt, λ h. refl)
  print_capabilities-Goes (err e) m = print_error-Goes e m

  print_fips_version-Goes : (r : Result FipsVersion CptraError) → Goes (print_fips_version hal r)
  unfolding print_fips_version print ends
  print_fips_version-Goes (ok ver) m = (λ h. tt, λ h. refl)
  print_fips_version-Goes (err e) m = print_error-Goes e m

  print-Goes : (s : List ℕ) → Goes (print hal s)
  unfolding print ends
  print-Goes s m = (λ h. tt, λ h. refl)

  and_then :
      {A B : Type 0} {Q : Type 0} (p : Boot M A) (q : A → Boot M B)
      → Goes p
      → ((a : A) → Decides (q a) Q)
      → Decides (p >>= q) Q
  and_then p q g k m = both (bind_Decides p q g k m) (λ (_, x). x, λ x. (tt, x))

  called :
      {A B : Type 0} {Q : Type 0} (f : M → M × A) (q : A → Boot M B)
      → ((a : A) → Decides (q a) Q)
      → Decides (call f >>= q) Q
  called f q k m = k (f m).1 (f m).0

  print_queries-Goes : Goes (print_queries hal)
  unfolding print_queries
  print_queries-Goes = and_then (print hal (codes "\r\n--- FW_INFO ---\r\n")) _ (print-Goes _) (λ _.
      called hal.fw_info _ (λ info.
        and_then (print_fw_info hal info) _ (print_fw_info-Goes info) (λ _.
          and_then (print hal (codes "\r\n--- CAPABILITIES ---\r\n")) _ (print-Goes _) (λ _.
            called hal.capabilities _ (λ cap.
              and_then (print_capabilities hal cap) _ (print_capabilities-Goes cap) (λ _.
                and_then (print hal (codes "\r\n--- FIPS_VERSION ---\r\n")) _ (print-Goes _) (λ _.
                  called hal.fips_version _ (λ ver.
                    and_then (print_fips_version hal ver) _ (print_fips_version-Goes ver)
                      (λ _. print-Goes (codes "\r\n=== Done ===\r\n"))))))))))

  module _ (checks : Bool) where
    print_errors-Goes : (e : ℕ × ℕ × ℕ × ℕ) → Goes (print_errors checks hal e)
    unfolding print_errors print ends
    print_errors-Goes (a, b, c, d) m =
        elim (Bool-cases (not (a == 0) || not (b == 0) || not (c == 0) || not (d == 0))) [
          | inl e ↦ rw e (λ h. tt, λ h. refl)
          | inr e ↦ rw e (λ h. tt, λ h. refl)
        ]

    print_state-Goes : Goes (print_state checks hal)
    unfolding print_state print
    print_state-Goes m = print_errors-Goes (hal.errors m) _

    waited_iff : (r : Result (Unit {0}) CptraError) → Decides (waited checks hal r) (is_ok r ≡ true)
    unfolding waited print ends
    waited_iff (ok _) m = (λ h. refl, λ h. refl)
    waited_iff (err CptraError.mbox_busy) m = (λ h. h, λ h. h)
    waited_iff (err CptraError.not_ready) m = (λ h. h, λ h. h)
    waited_iff (err CptraError.cmd_failed) m = (λ h. h, λ h. h)
    waited_iff (err CptraError.timeout) m = (λ h. h, λ h. h)
    waited_iff (err (CptraError.hw_fatal code)) m = (λ h. h, λ h. h)

    -- The wait and the match on what it gives, which is nothing where the entropy panics.
    abbrev wait : Boot M (Result (Unit {0}) CptraError)
    wait = hal.wait_rdy_for_rt_with_trng (timer_entropy checks hal.read_timer) 50000000

-- What the wait gives is `Ok`.
abbrev pub is_ready : Option (Result (Unit {0}) CptraError) → Bool
is_ready none = false
is_ready (some r) = is_ok r

module _ {M : Type 0} (checks : Bool) (hal : Hal M) where
  waiting :
      (x : M × Option (Result (Unit {0}) CptraError)) (rest : Boot M (Unit {0}))
      → Goes hal rest
      → (ends {M = M} {A = Unit {0}} (
            let (m', r) = x in
            elim r [ none ↦ (m', none) | some a ↦ (waited checks hal a >> rest) m' ])
          ≡ true)
        ↔ (is_ready x.1 ≡ true)
  unfolding ends
  waiting (m', none) rest g = (λ h. h, λ h. h)
  waiting (m', some r) rest g =
      both (bind_Decides (waited checks hal r) (λ _. rest) (waited_iff hal checks r) (λ _. g) m')
        (λ (e, _). e, λ e. (e, tt))

  -- The program comes to its last loop exactly where the wait for Caliptra gives `Ok`: an error of
  -- the wait, or a panic in it, stops it before any query, and an error of a query does not stop it.
  pub caliptra_hello_iff :
      (m : M) (outcome : Option (Result (Unit {0}) CptraError))
      → ((m : M) → (wait hal checks m).1 ≡ outcome)
      → (ends (caliptra_hello checks hal m) ≡ true) ↔ (is_ready outcome ≡ true)
  unfolding caliptra_hello print
  caliptra_hello_iff m outcome h =
      let awaited : Decides (wait hal checks >>= λ r. waited checks hal r >> print_queries hal)
          (is_ready outcome ≡ true) =
        λ m1.
          both (waiting (wait hal checks m1) (print_queries hal) (print_queries-Goes hal))
            (λ e. ap is_ready (sym (h m1)) ∙ e, λ e. ap is_ready (h m1) ∙ e) in
      let text = codes "Waiting for RDY_FOR_RT (feeding TRNG)...\r\n" in
      and_then hal (print_state checks hal)
        (λ _. print hal text >> (wait hal checks >>= λ r. waited checks hal r >> print_queries hal))
        (print_state-Goes hal checks) (λ _ m1. awaited (hal.blocking_write text m1))
        (hal.blocking_write (codes "\r\n=== AST2700 BootMCU Caliptra ===\r\n")
          (hal.new_uart12 (hal.init m)))
