-- ===== src/Manifest/Queue.antt =====
-- The fixed-capacity queue of verification requests (app-rot/src/manifest/mod.rs). The array
-- `items: [Option<_>; N]` is a list of `N` slots.
pub mod Fifo
pub mod Represented
pub mod Refined
use mcu_runtime.Base.{
  ℕ, zero, suc, ◌+◌, ◌-◌, Bool, true, false, if◌then◌else◌, leb, ◌==◌, Option, none, some, List,
  length, get_or, set, replicate,
}
use mcu_runtime.Manifest.{VerificationRequest}

pub record VerificationQueue : Type 0 where
  pub items : List (Option VerificationRequest)
  pub len : ℕ

-- `VerificationQueue::<N>::new`.
unfoldable pub new : ℕ → VerificationQueue
new n = record { items = replicate n none; len = 0 }

-- The queue keeps its `N` slots.
abbrev capacity : VerificationQueue → ℕ
capacity q = length q.items

unfoldable pub push : VerificationQueue → VerificationRequest → VerificationQueue × Bool
push q request =
    if leb (capacity q) q.len
    then (q, false)
    else (record q { items = set q.items q.len (some request); len = q.len + 1 }, true)

-- `self.items[i - 1] = self.items[i].take()` for `i = j + 1`, `n` times, with `i` going up.
unfoldable pub shift : ℕ → ℕ → List (Option VerificationRequest) → List (Option VerificationRequest)
shift zero j items = items
shift (suc n) j items = shift n (suc j) (set (set items (suc j) none) j (get_or items (suc j) none))

unfoldable pub pop : VerificationQueue → VerificationQueue × Option VerificationRequest
unfolding shift
pop q = if q.len == 0 then (q, none) else (
  record q { items = shift (q.len - 1) 0 (set q.items 0 none); len = q.len - 1 },
  get_or q.items 0 none,
)

unfoldable is_empty : VerificationQueue → Bool
is_empty q = q.len == 0

unfoldable is_full : VerificationQueue → Bool
is_full q = leb (capacity q) q.len
