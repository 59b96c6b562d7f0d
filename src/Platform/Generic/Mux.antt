-- ===== src/Platform/Generic/Mux.antt =====
-- The multiplexers of the four flashes (app-rot/src/platform/generic.rs).
use mcu_runtime.Base.{ℕ, ◌<◌, ◌≡◌, refl, ◌∙◌, ◌⊎◌, Bool, false, if◌then◌else◌, [], ◌∷◌, arith}
use mcu_runtime.Base.Digits.{bit}
use mcu_runtime.Base.Registers.{is_listed, with_bits-bit}
use mcu_runtime.Platform.Generic.{spim_ext_mux}

-- The four multiplexers select the target, or the root of trust.
abbrev pub IsOwned : Bool → ℕ → Type 0
IsOwned rot scu =
    (bit 12 scu ≡ (if rot then 1 else 0))
    × (bit 13 scu ≡ (if rot then 1 else 0))
    × (bit 14 scu ≡ (if rot then 1 else 0))
    × (bit 15 scu ≡ (if rot then 1 else 0))

unfoldable pub mux : Bool → ℕ → ℕ
mux rot scu = spim_ext_mux 4 rot (spim_ext_mux 3 rot (spim_ext_mux 2 rot (spim_ext_mux 1 rot scu)))

mux-bit :
    (rot : Bool) (scu k : ℕ)
    → k < 32
    → bit k (mux rot scu)
      ≡ (if is_listed k (12 ∷ 13 ∷ 14 ∷ 15 ∷ []) then (if rot then 1 else 0) else bit k scu)
unfolding mux spim_ext_mux
mux-bit rot scu k u = with_bits-bit k (12 ∷ 13 ∷ 14 ∷ 15 ∷ []) scu rot u refl

pub mux-IsOwned : (rot : Bool) (scu : ℕ) → IsOwned rot (mux rot scu)
mux-IsOwned rot scu = (
  mux-bit rot scu 12 (omega arith),
  mux-bit rot scu 13 (omega arith),
  mux-bit rot scu 14 (omega arith),
  mux-bit rot scu 15 (omega arith),
)

pub mux-other :
    (rot : Bool) (scu k : ℕ) → (k < 12) ⊎ (15 < k) → k < 32 → bit k (mux rot scu) ≡ bit k scu
mux-other rot scu k d u =
    let listed : is_listed k (12 ∷ 13 ∷ 14 ∷ 15 ∷ []) ≡ false = ground arith in
    mux-bit rot scu k u ∙ rw listed refl
