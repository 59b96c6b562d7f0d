-- ===== src/Diag/Decides.antt =====
-- When a program that may stop in `loop {}` goes on (the programs under app-rot/src/bin).
use mcu_runtime.Base.{◌≡◌, refl, Bool, true, false, ◌↔◌, Option, none, some, Result, ok, err, arith}
use mcu_runtime.Bootmcu.Halt.{Boot, ◌>>=◌}

-- A program has not stopped in `loop {}`.
unfoldable pub ends : {M A : Type 0} → M × Option A → Bool
ends (m, none) = false
ends (m, some a) = true

-- A part of a program goes on exactly under a condition, whatever the state.
abbrev pub Decides : {M A : Type 0} → Boot M A → Type 0 → Type 0
Decides {M} p P = (m : M) → (ends (p m) ≡ true) ↔ P

bind_pair :
    {M A B : Type 0} {P Q : Type 0} (x : M × Option A) (q : A → Boot M B)
    → ((ends x ≡ true) ↔ P)
    → ((a : A) → Decides (q a) Q)
    → (ends {M = M} {A = B} (let (m', r) = x in elim r [ none ↦ (m', none) | some a ↦ q a m' ])
        ≡ true)
      ↔ (P × Q)
unfolding ends
bind_pair (m', none) q i k =
    (λ h. absurd (ground (arith, h)), λ (p, q'). absurd (ground (arith, i.1 p)))
bind_pair (m', some a) q i k = (λ h. (i.0 refl, (k a m').0 h), λ (p, q'). (k a m').1 q')

-- Two parts go on where both do.
pub bind_Decides :
    {M A B : Type 0} {P Q : Type 0} (p : Boot M A) (q : A → Boot M B)
    → Decides p P
    → ((a : A) → Decides (q a) Q)
    → Decides (p >>= q) (P × Q)
bind_Decides p q i k m = bind_pair (p m) q (i m) k

pub both : {P Q R : Type 0} → P ↔ Q → Q ↔ R → P ↔ R
both (f, g) (h, k) = (λ p. h (f p), λ r. g (k r))

-- `Result::is_ok`.
abbrev pub is_ok : {E : Type 0} → Result (Unit {0}) E → Bool
is_ok (ok _) = true
is_ok (err _) = false
