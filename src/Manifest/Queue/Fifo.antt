-- ===== src/Manifest/Queue/Fifo.antt =====
-- The queue of verification requests (app-rot/src/manifest/mod.rs) refines a list: `push` adds at
-- the back, `pop` takes from the front.
use mcu_runtime.Base.{
  ℕ, zero, suc, ◌+◌, ◌≡◌, refl, ap, ◌∙◌, Bool, true, false, Option, none, some, List, [], ◌∷◌, ◌++◌,
  length, length-append, replicate, length-replicate, set, arith,
}
use mcu_runtime.Manifest.{VerificationRequest}
use mcu_runtime.Manifest.Queue.{VerificationQueue, new, push, shift, pop}

-- The slots of a queue that holds `xs` and has `k` free slots.
abbrev pub slots : List VerificationRequest → ℕ → List (Option VerificationRequest)
slots [] k = replicate k none
slots (x ∷ xs) k = some x ∷ slots xs k

-- The queue holds the requests `xs`, oldest first, and has `k` free slots.
pub record Holds (q : VerificationQueue) (xs : List VerificationRequest) (k : ℕ) : Type 0 where
  pub filled : q.items ≡ slots xs k
  pub counted : q.len ≡ length xs

pub length-slots : (xs : List VerificationRequest) (k : ℕ) → length (slots xs k) ≡ length xs + k
length-slots [] k = omega (arith, length-replicate {A = Option VerificationRequest} k none)
length-slots (x ∷ xs) k = omega (arith, length-slots xs k)

set-slots :
    (xs : List VerificationRequest) (k : ℕ) (r : VerificationRequest)
    → set (slots xs (suc k)) (length xs) (some r) ≡ slots (xs ++ (r ∷ [])) k
set-slots [] k r = refl
set-slots (x ∷ xs) k r = ap (λ ys. some x ∷ ys) (set-slots xs k r)

shift-cons :
    (n j : ℕ) (y : Option VerificationRequest) (items : List (Option VerificationRequest))
    → shift n (suc j) (y ∷ items) ≡ y ∷ shift n j items
unfolding shift
shift-cons zero j y items = refl
shift-cons (suc n) j y items = shift-cons n (suc j) y _

shift-slots :
    (xs : List VerificationRequest) (k : ℕ)
    → shift (length xs) 0 (none ∷ slots xs k) ≡ slots xs (suc k)
unfolding shift
shift-slots [] k = refl
shift-slots (x ∷ xs) k =
    shift-cons (length xs) 0 (some x) (none ∷ slots xs k)
    ∙ ap (λ ys. some x ∷ ys) (shift-slots xs k)

-- A new queue of capacity `n` holds nothing and has `n` free slots.
pub new-Holds : (n : ℕ) → Holds (new n) [] n
unfolding new
new-Holds n = record { filled = refl; counted = refl }

-- What `push` owes to a queue that holds `xs` and has `k` free slots.
abbrev pub Pushed :
    VerificationQueue
    → List VerificationRequest
    → ℕ
    → VerificationRequest
    → VerificationQueue × Bool
    → Type 0
Pushed q xs zero r (q', b) = (b ≡ false) × (q' ≡ q)
Pushed q xs (suc k) r (q', b) = (b ≡ true) × Holds q' (xs ++ (r ∷ [])) k

-- With a free slot, `push` returns true and the queue holds the request behind the others;
-- with none it returns false and leaves the queue as it was.
pub push_lem :
    (q : VerificationQueue) (xs : List VerificationRequest) (k : ℕ) (r : VerificationRequest)
    → Holds q xs k
    → Pushed q xs k r (push q r)
unfolding push
push_lem q xs zero r h = ground (arith, length-slots xs 0)
push_lem q xs (suc k) r h =
    ground (arith, length-slots xs (suc k), set-slots xs k r, length-append xs (r ∷ []))

-- What `pop` owes to such a queue.
abbrev pub Popped :
    VerificationQueue
    → List VerificationRequest
    → ℕ
    → VerificationQueue × Option VerificationRequest
    → Type 0
Popped q [] k (q', o) = (o ≡ none) × (q' ≡ q)
Popped q (x ∷ xs) k (q', o) = (o ≡ some x) × Holds q' xs (suc k)

-- `pop` returns the oldest request and the queue holds the others in their order, with one more
-- free slot; an empty queue returns none and stays as it was.
pub pop_lem :
    (q : VerificationQueue) (xs : List VerificationRequest) (k : ℕ)
    → Holds q xs k
    → Popped q xs k (pop q)
unfolding pop
pop_lem q [] k h = ground arith
pop_lem q (x ∷ xs) k h = ground (arith, shift-slots xs k)
