-- ===== src/Manifest/Queue/Refined.antt =====
-- The queue of verification requests (app-rot/src/manifest/mod.rs) as a list that fits it, with its
-- operations.
use mathlib.Core.Path.{subst}
use mathlib.Core.Equiv.{◌≃◌}
use mcu_runtime.Base.{
  ℕ, zero, suc, ◌+◌, ◌-◌, ◌≡◌, refl, sym, ap, ◌∙◌, Bool, true, false, if◌then◌else◌, ltb, Option,
  none, some, List, [], ◌∷◌, ◌++◌, length, length-append, arith,
}
use mcu_runtime.Manifest.{VerificationRequest}
use mcu_runtime.Manifest.Queue.{VerificationQueue, new, push, pop}
use mcu_runtime.Manifest.Queue.Fifo.{slots, Holds, new-Holds, Pushed, push_lem, Popped, pop_lem}
use mcu_runtime.Manifest.Queue.Represented.{
  IsQueue, contents, contents-slots, slots-contents, queue_of, QueueOf, ListUpTo, queue_equiv,
}

-- The operations on a list of at most `n` requests.
abbrev pub push_list :
    ℕ → List VerificationRequest → VerificationRequest → List VerificationRequest × Bool
push_list n xs r = if ltb (length xs) n then (xs ++ (r ∷ []), true) else (xs, false)

abbrev pub pop_list :
    List VerificationRequest → List VerificationRequest × Option VerificationRequest
pop_list [] = ([], none)
pop_list (x ∷ xs) = (xs, some x)

-- A queue of capacity `n` that an operation leaves, and the list in it with the operation's result.
abbrev pub Leaves : {A : Type 0} → ℕ → VerificationQueue × A → List VerificationRequest × A → Type 0
Leaves n (q, a) r = IsQueue n q × ((contents q.items, a) ≡ r)

-- The queue refines the list.
pub record Refined (n : ℕ) : Type 0 where
  pub states : QueueOf n ≃ ListUpTo n
  pub by_contents : (q : QueueOf n) → (states.0 q).0 ≡ contents q.0.items
  pub starts : IsQueue n (new n) × (contents (new n).items ≡ [])
  pub pushes :
      (q : QueueOf n) (r : VerificationRequest)
      → Leaves n (push q.0 r) (push_list n (contents q.0.items) r)
  pub pops : (q : QueueOf n) → Leaves n (pop q.0) (pop_list (contents q.0.items))

queue-Holds : (n : ℕ) (q : VerificationQueue) → IsQueue n q → Holds q (contents q.items) (n - q.len)
queue-Holds n q v =
    let (count, same) = slots-contents q.items q.len (omega (arith, v.0, v.1)) v.2 in
    let e : length q.items - q.len ≡ n - q.len = omega (arith, v.0) in
    record { filled = sym same ∙ ap (slots (contents q.items)) e; counted = sym count }

-- What a queue holds is the list in it.
Holds-IsQueue :
    (n : ℕ) (q : VerificationQueue) (xs : List VerificationRequest) (k : ℕ)
    → Holds q xs k
    → length xs + k ≡ n
    → IsQueue n q × (contents q.items ≡ xs)
Holds-IsQueue n q xs k h e =
    let room : n - length xs ≡ k = omega (arith, e) in
    let (q', v) = queue_of n (xs, omega (arith, e)) in
    let same : q' ≡ q =
      λ i. record { items = (ap (slots xs) room ∙ sym h.filled) i; len = sym h.counted i } in
    (subst (IsQueue n) same v, ap contents h.filled ∙ contents-slots xs k)

push-Leaves :
    (n : ℕ) (q : VerificationQueue) (xs : List VerificationRequest) (k : ℕ)
    (r : VerificationRequest) (x : VerificationQueue × Bool)
    → Holds q xs k
    → length xs + k ≡ n
    → Pushed q xs k r x
    → Leaves n x (push_list n xs r)
push-Leaves n q xs zero r (q', b) h e (full, same) =
    let t : ltb (length xs) n ≡ false = ground (arith, e) in
    let (v, c) = Holds-IsQueue n q xs 0 h e in
    (subst (IsQueue n) (sym same) v, rw t (λ i. ((ap (λ p. contents p.items) same ∙ c) i, full i)))
push-Leaves n q xs (suc k) r (q', b) h e (done, held) =
    let t : ltb (length xs) n ≡ true = ground (arith, e) in
    let (v, c) =
      Holds-IsQueue n q' (xs ++ (r ∷ [])) k held (omega (arith, e, length-append xs (r ∷ []))) in
    (v, rw t (λ i. (c i, done i)))

pop-Leaves :
    (n : ℕ) (q : VerificationQueue) (xs : List VerificationRequest) (k : ℕ)
    (x : VerificationQueue × Option VerificationRequest)
    → Holds q xs k
    → length xs + k ≡ n
    → Popped q xs k x
    → Leaves n x (pop_list xs)
pop-Leaves n q [] k (q', o) h e (empty, same) =
    let (v, c) = Holds-IsQueue n q [] k h e in
    (subst (IsQueue n) (sym same) v, λ i. ((ap (λ p. contents p.items) same ∙ c) i, empty i))
pop-Leaves n q (r ∷ xs) k (q', o) h e (first, held) =
    let (v, c) = Holds-IsQueue n q' xs (suc k) held (omega (arith, e)) in (v, λ i. (c i, first i))

-- The states of a queue of capacity `n` are, as a type, the lists of at most `n` requests, by the
-- requests in its slots: every such list is held, and in one way only. A new queue holds the empty
-- list; `push` adds behind the list where it is shorter than `n`, else it refuses and changes
-- nothing; `pop` takes the first request. Each leaves a queue of that capacity.
pub queue-Refined : (n : ℕ) → Refined n
unfolding queue_equiv
queue-Refined n = record {
  states = queue_equiv n;
  by_contents = λ q. refl;
  starts = Holds-IsQueue n (new n) [] n (new-Holds n) (omega arith);
  pushes = λ (q, v) r.
      let h = queue-Holds n q v in
      let (count, same) = slots-contents q.items q.len (omega (arith, v.0, v.1)) v.2 in
      push-Leaves n q (contents q.items) (n - q.len) r (push q r) h (omega (arith, v.1, count))
        (push_lem q (contents q.items) (n - q.len) r h);
  pops = λ (q, v).
      let h = queue-Holds n q v in
      let (count, same) = slots-contents q.items q.len (omega (arith, v.0, v.1)) v.2 in
      pop-Leaves n q (contents q.items) (n - q.len) (pop q) h (omega (arith, v.1, count))
        (pop_lem q (contents q.items) (n - q.len) h);
}
