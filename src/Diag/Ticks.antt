-- ===== src/Diag/Ticks.antt =====
-- The loops over the count of SysTick (app-rot/src/bin/uart5_systick.rs). What a load of the count
-- gives is an element of a list; a list that comes to its end is a loop that still waits.
pub mod Spaced
use mcu_runtime.Base.{
  ℕ, zero, suc, ◌+◌, ◌-◌, ◌*◌, ◌%◌, Bool, true, false, if◌then◌else◌, leb, List, [], ◌∷◌,
}
use mcu_runtime.Base.Words.{as_u32}

-- `t.wrapping_sub(last)` of 32-bit numbers.
abbrev pub wrapping_sub : ℕ → ℕ → ℕ
wrapping_sub t last = (t + (4294967296 - last)) % 4294967296

-- `fetch_add(1)` of the exception `SysTick`.
unfoldable pub sys_tick : ℕ → ℕ
sys_tick count = as_u32 (count + 1)

-- The loop with its period and its number of prints: the ticks that it prints, and whether it has
-- come to `break`.
unfoldable pub tick_loop : ℕ → ℕ → List ℕ → ℕ → ℕ → List ℕ × Bool
tick_loop period limit [] last_tick print_count = ([], false)
tick_loop period limit (t ∷ loads) last_tick print_count =
    let (later, ended) = tick_loop period limit loads t (print_count + 1) in
    let wait = tick_loop period limit loads last_tick print_count in
    if leb period (wrapping_sub t last_tick)
    then (if leb limit (print_count + 1) then (t ∷ [], true) else (t ∷ later, ended))
    else wait

-- The loop at 1 MHz and the loop at 1 kHz.
unfoldable pub fast_loop : List ℕ → List ℕ × Bool
unfolding tick_loop
fast_loop loads = tick_loop 1000000 10 loads 0 0

unfoldable pub slow_loop : List ℕ → List ℕ × Bool
unfolding tick_loop
slow_loop loads = tick_loop 1000 5 loads 0 0
