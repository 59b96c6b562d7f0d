-- ===== src/Base/Words.antt =====
-- Machine integers: a `u8`, `u32` or `u64` is a number with a bound, and arithmetic is written out.
-- `usize` is taken 32 bits wide, as on every core that the firmware runs on.
use Prim.Native.Nat.{ℕ, ◌+◌, ◌<◌, ◌%◌, min}
use mathlib.Core.Option.{Option, none, some}
use mcu_runtime.Base.Tests.{ltb, if◌then◌else◌}

abbrev pub IsU8 : ℕ → Type 0
IsU8 n = n < 256

abbrev pub IsU32 : ℕ → Type 0
IsU32 n = n < 4294967296

abbrev pub IsU64 : ℕ → Type 0
IsU64 n = n < 18446744073709551616

-- `as u8` and `as u32`, from a wider type.
abbrev pub as_u8 : ℕ → ℕ
as_u8 n = n % 256

abbrev pub as_u32 : ℕ → ℕ
as_u32 n = n % 4294967296

-- `u32::checked_add`, and `usize::checked_add` on a 32-bit core.
abbrev pub checked_add : ℕ → ℕ → Option ℕ
checked_add a b = if ltb (a + b) 4294967296 then some (a + b) else none

-- `u32::saturating_add`.
abbrev pub saturating_add : ℕ → ℕ → ℕ
saturating_add a b = min (a + b) 4294967295
