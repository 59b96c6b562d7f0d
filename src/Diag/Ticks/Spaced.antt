-- ===== src/Diag/Ticks/Spaced.antt =====
-- What the loops over the count of SysTick (app-rot/src/bin/uart5_systick.rs) print.
use mcu_runtime.Base.{
  ℕ, ◌+◌, ◌≤◌, ◌<◌, ◌≡◌, refl, Bool, true, leb, Bool-cases, inl, inr, ◌↔◌, List, [], ◌∷◌, length,
  arith,
}
use mcu_runtime.Diag.Ticks.{wrapping_sub, tick_loop}

-- Each tick is a period at least behind the one before it, on the clock of 32 bits.
abbrev pub Spaced : ℕ → ℕ → List ℕ → Type 0
Spaced period last [] = Unit {0}
Spaced period last (t ∷ ts) = (period ≤ wrapping_sub t last) × Spaced period t ts

-- What a loop owes that has printed `count` ticks, the last of them `last`.
pub record Ran (period limit last count : ℕ) (r : List ℕ × Bool) : Type 0 where
  pub spaced : Spaced period last r.0
  pub bounded : count + length r.0 ≤ limit
  pub complete : (r.1 ≡ true) ↔ (count + length r.0 ≡ limit)

-- A loop that is to print more ticks prints ticks that are a period apart, never more than its
-- limit, and comes to its end exactly where it has printed that many, whatever it loads.
pub tick_loop-Ran :
    (period limit : ℕ) (loads : List ℕ) (last count : ℕ)
    → count < limit
    → Ran period limit last count (tick_loop period limit loads last count)
unfolding tick_loop
tick_loop-Ran period limit [] last count h = record {
  spaced = tt;
  bounded = omega arith;
  complete = (λ e. ground (arith, e), λ e. absurd (omega arith));
}
tick_loop-Ran period limit (t ∷ loads) last count h =
    elim (Bool-cases (leb period (wrapping_sub t last))) [
      | inr e ↦ rw e (tick_loop-Ran period limit loads last count h)
      | inl e ↦ elim (Bool-cases (leb limit (count + 1))) [
        | inl l ↦
            rw (e, l)
              (record {
                spaced = (ground arith, tt);
                bounded = omega arith;
                complete = (λ _. ground arith, λ _. refl);
              })
        | inr l ↦
            let rest = tick_loop-Ran period limit loads t (count + 1) (ground arith) in
            rw (e, l)
              (record {
                spaced = (ground arith, rest.spaced);
                bounded = omega (arith, rest.bounded);
                complete =
                    (λ q. omega (arith, rest.complete.0 q), λ q. rest.complete.1 (omega arith));
              })
      ]
    ]
