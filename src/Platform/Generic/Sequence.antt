-- ===== src/Platform/Generic/Sequence.antt =====
-- Holding and releasing the AST2700 (app-rot/src/platform/generic.rs).
use mcu_runtime.Base.{
  ℕ, ◌&&◌, ◌<◌, ◌≡◌, refl, ◌∙◌, ◌⊎◌, inl, inr, Bool, true, false, ◌||◌, List, [], ◌∷◌, ◌++◌, take,
  drop, All, arith,
}
use mcu_runtime.Base.Digits.{bit}
use mcu_runtime.Platform.Generic.Mux.{IsOwned, mux, mux-IsOwned, mux-other}
use mcu_runtime.Platform.Generic.{
  Step, set_level, set_output_pin, set_spim_ext_mux, reset_by_command, wait_ms, first_done, Pin,
  Ast1060DcscmPlatform, exec, exec_all, spim_ext_mux, hold_bootmcu_in_reset,
  release_bootmcu_from_reset, release_steps, first_steps,
}

-- The states behind each of the steps.
abbrev pub states : List Step → Ast1060DcscmPlatform → List Ast1060DcscmPlatform
states [] p = []
states (s ∷ steps) p = let p' = exec s p in p' ∷ states steps p'

-- The target is in reset, or its flash is powered and connected to it.
abbrev pub IsSafe : Ast1060DcscmPlatform → Type 0
IsSafe p =
    (p.bmc_extrst ≡ false)
    ⊎ ((p.flash_power_l2 ≡ true) × (p.flash_power_l3 ≡ true) × IsOwned false p.scu_spim_mode_ctrl)

-- The step leaves the external reset alone.
is_quiet : Step → Bool
is_quiet (set_level Pin.bmc_extrst level) = false
is_quiet _ = true

all_quiet : List Step → Bool
all_quiet [] = true
all_quiet (s ∷ steps) = is_quiet s && all_quiet steps

quiet-same :
    (s : Step) (p : Ast1060DcscmPlatform) → is_quiet s ≡ true → (exec s p).bmc_extrst ≡ p.bmc_extrst
unfolding exec is_quiet
quiet-same (set_level Pin.flash_power_l2 level) p h = refl
quiet-same (set_level Pin.flash_power_l3 level) p h = refl
quiet-same (set_level Pin.bmc_srst level) p h = refl
quiet-same (set_level Pin.bmc_extrst level) p h = absurd (ground arith)
quiet-same (set_output_pin pin level) p h = refl
quiet-same (set_spim_ext_mux inst rot_owner) p h = refl
quiet-same (reset_by_command controller ce) p h = refl
quiet-same (wait_ms ms) p h = refl
quiet-same first_done p h = refl

-- A target in reset stays there through quiet steps.
quiet-IsSafe :
    (front back : List Step) (p : Ast1060DcscmPlatform)
    → all_quiet front ≡ true
    → p.bmc_extrst ≡ false
    → All IsSafe (states back (exec_all front p))
    → All IsSafe (states (front ++ back) p)
unfolding all_quiet exec_all
quiet-IsSafe [] back p q h a = a
quiet-IsSafe (s ∷ front) back p q h a =
    let e : (exec s p).bmc_extrst ≡ false = quiet-same s p (ground arith) ∙ h in
    (inl e, quiet-IsSafe front back (exec s p) (ground arith) e a)

-- The steps around the first release's.
abbrev before : List Step
before = take 10 (release_steps false)

abbrev after : List Step
after = drop 10 (release_steps false)

after-IsSafe :
    (p : Ast1060DcscmPlatform)
    → p.flash_power_l2 ≡ true
    → p.flash_power_l3 ≡ true
    → IsOwned false p.scu_spim_mode_ctrl
    → All IsSafe (states after p)
unfolding exec
after-IsSafe p l2 l3 o =
    let safe : IsSafe (record p { bmc_extrst = true }) = inr (l2, l3, o) in
    (safe, (safe, (safe, (safe, (safe, tt)))))

then_first :
    (first : Bool) (p : Ast1060DcscmPlatform)
    → p.bmc_extrst ≡ false
    → p.flash_power_l2 ≡ true
    → p.flash_power_l3 ≡ true
    → IsOwned false p.scu_spim_mode_ctrl
    → All IsSafe (states (first_steps first ++ after) p)
unfolding exec exec_all
then_first true p h l2 l3 o =
    (inl h, (inl h, (inl h, after-IsSafe (exec_all (first_steps true) p) l2 l3 o)))
then_first false p h l2 l3 o = after-IsSafe p l2 l3 o

steps-IsSafe :
    (first : Bool) (p : Ast1060DcscmPlatform)
    → p.bmc_extrst ≡ false
    → All IsSafe (states (release_steps first) p)
unfolding exec exec_all is_quiet all_quiet mux spim_ext_mux
steps-IsSafe first p h =
    quiet-IsSafe before (first_steps first ++ after) p refl h
      (then_first first (exec_all before p) h refl refl (mux-IsOwned false p.scu_spim_mode_ctrl))

-- Through the whole release of a target that is held in reset, behind each of the steps, the target
-- is still in reset or else its flashes are powered and all four of them connected to it.
pub release-IsSafe :
    (p : Ast1060DcscmPlatform)
    → p.bmc_extrst ≡ false
    → All IsSafe (states (release_steps p.first_release) p)
release-IsSafe p h = steps-IsSafe p.first_release p h

steps-end :
    (first : Bool) (p : Ast1060DcscmPlatform)
    → let q = exec_all (release_steps first) p in
      (q.bmc_extrst ≡ true)
      × (q.bmc_srst ≡ (first || p.bmc_srst))
      × (q.scu_spim_mode_ctrl ≡ mux false p.scu_spim_mode_ctrl)
unfolding exec_all exec mux spim_ext_mux
steps-end true p = (refl, refl, refl)
steps-end false p = (refl, refl, refl)

steps-first :
    (first : Bool) (p : Ast1060DcscmPlatform)
    → p.first_release ≡ first
    → (exec_all (release_steps first) p).first_release ≡ false
unfolding exec_all exec
steps-first true p h = refl
steps-first false p h = h

held-end :
    (p : Ast1060DcscmPlatform)
    → let q = hold_bootmcu_in_reset p in
      (q.bmc_extrst ≡ false)
      × (q.bmc_srst ≡ false)
      × (q.scu_spim_mode_ctrl ≡ mux true p.scu_spim_mode_ctrl)
      × (q.first_release ≡ p.first_release)
unfolding hold_bootmcu_in_reset exec_all exec mux spim_ext_mux
held-end p = (refl, refl, refl, refl)

-- A hold puts the target in its standby reset, and does not count as its first release.
pub hold-first :
    (p : Ast1060DcscmPlatform)
    → let q = hold_bootmcu_in_reset p in (q.first_release ≡ p.first_release) × (q.bmc_srst ≡ false)
hold-first p = let (q1, q2, q3, q4) = held-end p in (q4, q2)

-- A hold leaves the target in both resets with all four flashes connected to the root of trust; a
-- release takes it out of the external reset with all four connected to it, and out of the standby
-- reset if that was the first release or it was out of it already. Both leave the other bits of the
-- mode control register as they were.
pub sequence_lem :
    (p : Ast1060DcscmPlatform) (k : ℕ)
    → (k < 12) ⊎ (15 < k)
    → k < 32
    → let q = hold_bootmcu_in_reset p in
      let r = release_bootmcu_from_reset p in
      ((q.bmc_extrst ≡ false)
        × (q.bmc_srst ≡ false)
        × IsOwned true q.scu_spim_mode_ctrl
        × (bit k q.scu_spim_mode_ctrl ≡ bit k p.scu_spim_mode_ctrl))
      × ((r.bmc_extrst ≡ true)
          × (r.bmc_srst ≡ (p.first_release || p.bmc_srst))
          × IsOwned false r.scu_spim_mode_ctrl
          × (bit k r.scu_spim_mode_ctrl ≡ bit k p.scu_spim_mode_ctrl))
unfolding release_bootmcu_from_reset
sequence_lem p k d u =
    let (q1, q2, q3, q4) = held-end p in
    let (r1, r2, r3) = steps-end p.first_release p in
    let scu = p.scu_spim_mode_ctrl in
    (
      (q1, q2, rw q3 (mux-IsOwned true scu), rw q3 (mux-other true scu k d u)),
      (r1, r2, rw r3 (mux-IsOwned false scu), rw r3 (mux-other false scu k d u)),
    )

pub data Call : Type 0 where
  hold release : Call

abbrev pub run : List Call → Ast1060DcscmPlatform → Ast1060DcscmPlatform
run [] p = p
run (hold ∷ calls) p = run calls (hold_bootmcu_in_reset p)
run (release ∷ calls) p = run calls (release_bootmcu_from_reset p)

IsStuck : Ast1060DcscmPlatform → Type 0
IsStuck p = (p.first_release ≡ false) × (p.bmc_srst ≡ false)

run-IsStuck : (calls : List Call) (p : Ast1060DcscmPlatform) → IsStuck p → IsStuck (run calls p)
unfolding IsStuck release_bootmcu_from_reset
run-IsStuck [] p s = s
run-IsStuck (hold ∷ calls) p s =
    let (q1, q2, q3, q4) = held-end p in run-IsStuck calls (hold_bootmcu_in_reset p) (q4 ∙ s.0, q2)
run-IsStuck (release ∷ calls) p s =
    let (r1, r2, r3) = steps-end p.first_release p in
    let f = steps-first p.first_release p refl in
    run-IsStuck calls (release_bootmcu_from_reset p) (f, ground arith)

-- Once the target has been released and then held, its standby reset stays asserted for good,
-- whatever holds and releases follow.
pub srst_never_released :
    (calls : List Call) (p : Ast1060DcscmPlatform)
    → (run (release ∷ hold ∷ calls) p).bmc_srst ≡ false
unfolding IsStuck release_bootmcu_from_reset
srst_never_released calls p =
    let f = steps-first p.first_release p refl in
    let (q1, q2, q3, q4) = held-end (release_bootmcu_from_reset p) in
    (run-IsStuck calls (hold_bootmcu_in_reset (release_bootmcu_from_reset p)) (q4 ∙ f, q2)).1
