-- ===== src/Manifest/Queue/Represented.antt =====
-- The states of the queue of verification requests (app-rot/src/manifest/mod.rs) are the lists that
-- fit it: the slots and the count represent a list, each in one way.
use native.Mathlib.Bridge.{le_prop}
use mathlib.Core.HLevel.{is_prop→PathP}
use mathlib.Core.Equiv.{iso_to_equiv, ◌≃◌}
use mcu_runtime.Base.{
  ℕ, zero, suc, ◌-◌, ◌≤◌, ◌<◌, ◌≡◌, ◌≢◌, refl, ap, ◌∙◌, Option, none, some, List, [], ◌∷◌, length,
  get_or, replicate, arith,
}
use mcu_runtime.Manifest.{VerificationRequest}
use mcu_runtime.Manifest.Queue.{VerificationQueue}
use mcu_runtime.Manifest.Queue.Fifo.{slots, length-slots}

-- The first `len` slots are filled, and the others are free.
abbrev pub IsFilled : ℕ → List (Option VerificationRequest) → Type 0
IsFilled len items =
    ((i : ℕ) → i < len → get_or items i none ≢ none)
    × ((i : ℕ) → len ≤ i → get_or items i none ≡ none)

-- What is always true of a queue of capacity `n`.
abbrev pub IsQueue : ℕ → VerificationQueue → Type 0
IsQueue n q = (length q.items ≡ n) × (q.len ≤ n) × IsFilled q.len q.items

-- The requests in the slots, in their order.
abbrev pub contents : List (Option VerificationRequest) → List VerificationRequest
contents [] = []
contents (none ∷ items) = contents items
contents (some r ∷ items) = r ∷ contents items

some_none : {A : Type 0} (a : A) → some a ≢ none
some_none a h = ground (arith, h)

-- Slots that are all free.
contents-free :
    (items : List (Option VerificationRequest))
    → ((i : ℕ) → get_or items i none ≡ none)
    → (contents items ≡ []) × (replicate (length items) none ≡ items)
contents-free [] h = (refl, refl)
contents-free (none ∷ items) h =
    let (c, e) = contents-free items (λ i. h (suc i)) in (c, ap (λ is. none ∷ is) e)
contents-free (some r ∷ items) h = absurd (some_none r (h 0))

-- Filled slots are those of their contents.
pub slots-contents :
    (items : List (Option VerificationRequest)) (len : ℕ)
    → len ≤ length items
    → IsFilled len items
    → (length (contents items) ≡ len) × (slots (contents items) (length items - len) ≡ items)
slots-contents [] zero h f = (refl, refl)
slots-contents [] (suc len) h f = absurd (omega arith)
slots-contents (none ∷ items) zero h f =
    let (c, e) = contents-free (none ∷ items) (λ i. f.1 i (omega arith)) in
    let n : suc (length items) - 0 ≡ suc (length items) = omega arith in
    (ap length c, rw n (ap (λ xs. slots xs (suc (length items))) c ∙ e))
slots-contents (none ∷ items) (suc len) h f = absurd (f.0 0 (omega arith) refl)
slots-contents (some r ∷ items) zero h f = absurd (some_none r (f.1 0 (omega arith)))
slots-contents (some r ∷ items) (suc len) h f =
    let (count, same) =
      slots-contents items len (omega arith)
        (λ i l. f.0 (suc i) (omega arith), λ i l. f.1 (suc i) (omega arith)) in
    let e : suc (length items) - suc len ≡ length items - len = omega arith in
    (
      ap suc count,
      ap (λ (k : ℕ). some r ∷ slots (contents items) k) e ∙ ap (λ is. some r ∷ is) same,
    )

pub contents-slots : (xs : List VerificationRequest) (k : ℕ) → contents (slots xs k) ≡ xs
contents-slots [] zero = refl
contents-slots [] (suc k) = contents-slots [] k
contents-slots (x ∷ xs) k = ap (λ ys. x ∷ ys) (contents-slots xs k)

pub slots-filled :
    (xs : List VerificationRequest) (k i : ℕ) → i < length xs → get_or (slots xs k) i none ≢ none
slots-filled [] k i h = absurd (omega arith)
slots-filled (x ∷ xs) k zero h = some_none x
slots-filled (x ∷ xs) k (suc i) h = slots-filled xs k i (omega arith)

pub slots-free :
    (xs : List VerificationRequest) (k i : ℕ) → length xs ≤ i → get_or (slots xs k) i none ≡ none
slots-free [] zero i h = refl
slots-free [] (suc k) zero h = refl
slots-free [] (suc k) (suc i) h = slots-free [] k i (omega arith)
slots-free (x ∷ xs) k zero h = absurd (omega arith)
slots-free (x ∷ xs) k (suc i) h = slots-free xs k i (omega arith)

IsQueue-prop : (n : ℕ) (q : VerificationQueue) → IsProp (IsQueue n q)
IsQueue-prop n q = hlevel le_prop

-- A type of pairs whose second part is a proposition has the paths of the first parts.
pair_path :
    {A : Type 0} (P : A → Type 0)
    → ((a : A) → IsProp (P a))
    → (u v : (a : A) × P a) → u.0 ≡ v.0
    → u ≡ v
pair_path P h u v p = λ i. (p i, is_prop→PathP (λ j. P (p j)) (λ j. h (p j)) u.1 v.1 i)

-- A queue of capacity `n`, and a list that fits it.
abbrev pub QueueOf : ℕ → Type 0
QueueOf n = (q : VerificationQueue) × IsQueue n q

abbrev pub ListUpTo : ℕ → Type 0
ListUpTo n = (xs : List VerificationRequest) × (length xs ≤ n)

abbrev pub list_of : (n : ℕ) → QueueOf n → ListUpTo n
list_of n (q, v) =
    let (count, same) = slots-contents q.items q.len (omega (arith, v.0, v.1)) v.2 in
    (contents q.items, omega (arith, count, v.1))

abbrev pub queue_of : (n : ℕ) → ListUpTo n → QueueOf n
queue_of n (xs, h) =
    let k = n - length xs in
    let size = length-slots xs k in
    (
      record { items = slots xs k; len = length xs },
      (omega arith, h, (slots-filled xs k, slots-free xs k)),
    )

pub queue_of-list_of : (n : ℕ) (q : QueueOf n) → queue_of n (list_of n q) ≡ q
queue_of-list_of n (q, v) =
    let (count, same) = slots-contents q.items q.len (omega (arith, v.0, v.1)) v.2 in
    let room : n - length (contents q.items) ≡ length q.items - q.len = omega (arith, count, v.0) in
    let items = ap (slots (contents q.items)) room ∙ same in
    pair_path (IsQueue n) (IsQueue-prop n) _ (q, v) (λ i. record { items = items i; len = count i })

pub list_of-queue_of : (n : ℕ) (l : ListUpTo n) → list_of n (queue_of n l) ≡ l
list_of-queue_of n (xs, h) =
    pair_path (λ ys. length ys ≤ n) (λ ys. le_prop) _ (xs, h) (contents-slots xs (n - length xs))

-- The queues of a capacity and the lists that fit it, by the list that a queue holds.
unfoldable pub queue_equiv : (n : ℕ) → QueueOf n ≃ ListUpTo n
queue_equiv n = iso_to_equiv (record {
  fun = list_of n;
  inv = queue_of n;
  rinv = list_of-queue_of n;
  linv = queue_of-list_of n;
})
