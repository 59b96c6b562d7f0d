-- ===== src/Bootmcu/Halt.antt =====
-- Boot code that may stop in `loop {}` (app-rot/src/bin/rot_ast2700_bootmcu.rs): the hardware's
-- state, and no result once it has stopped.
use mcu_runtime.Base.{◌≡◌, refl, ap, Bool, true, false, if◌then◌else◌, Option, none, some, arith}

abbrev pub Boot : Type 0 → Type 0 → Type 0
Boot M A = M → M × Option A

infixl 5 ◌>>=◌ ◌>>◌
abbrev pub ◌>>=◌ : {M A B : Type 0} → Boot M A → (A → Boot M B) → Boot M B
◌>>=◌ p f m = let (m', r) = p m in elim r [ none ↦ (m', none) | some a ↦ f a m' ]

abbrev pub ◌>>◌ : {M A B : Type 0} → Boot M A → Boot M B → Boot M B
p >> q = p >>= λ _. q

abbrev pub pure : {M A : Type 0} → A → Boot M A
pure a m = (m, some a)

abbrev pub gets : {M A : Type 0} → (M → A) → Boot M A
gets f m = (m, some (f m))

abbrev pub modify : {M : Type 0} → (M → M) → Boot M (Unit {0})
modify f m = (f m, some tt)

-- A call with a result.
abbrev pub call : {M A : Type 0} → (M → M × A) → Boot M A
call f m = let (m', a) = f m in (m', some a)

-- `if !... { loop {} }`.
abbrev pub halt_unless : {M : Type 0} → (M → M × Bool) → Boot M (Unit {0})
halt_unless f m = let (m', ok) = f m in (m', if ok then some tt else none)

-- `match ... { Some(a) => a, None => loop {} }`.
abbrev pub halt_none : {M A : Type 0} → (M → M × Option A) → Boot M A
halt_none f = f

-- A sequence has come to its end, in a state and with a result.
abbrev pub Ends : {M A : Type 0} → M × Option A → M → A → Type 0
Ends q m a = q ≡ (m, some a)

stopped : {M B : Type 0} (m m' : M) (b : B) → ¬ Ends (m, none) m' b
stopped m m' b h = let q = ap (λ x. x.1) h in ground arith

next :
    {M A B : Type 0} (q : M × Option A) (f : A → Boot M B) (m' : M) (b : B)
    → Ends (let (m1, r) = q in elim r [ none ↦ (m1, none) | some a ↦ f a m1 ]) m' b
    → (a : A) × (m1 : M) × Ends q m1 a × Ends (f a m1) m' b
next (m1, none) f m' b e = absurd (stopped m1 m' b e)
next (m1, some a) f m' b e = (a, m1, refl, e)

-- Where a sequence ends, its first part did.
pub bind-Ends :
    {M A B : Type 0} (p : Boot M A) (f : A → Boot M B) (m m' : M) (b : B)
    → Ends ((p >>= f) m) m' b
    → (a : A) × (m1 : M) × Ends (p m) m1 a × Ends (f a m1) m' b
bind-Ends p f m m' b h = next (p m) f m' b h

tested :
    {M : Type 0} (q : M × Bool) (m' : M) (x : Unit {0})
    → Ends (let (m1, ok) = q in (m1, if ok then some tt else none)) m' x
    → q ≡ (m', true)
tested (m1, false) m' x h = absurd (stopped m1 m' x h)
tested (m1, true) m' x h = ap (λ q. (q.0, true)) h

-- A check that is passed has succeeded.
pub halt_unless-Ends :
    {M : Type 0} (f : M → M × Bool) (m m' : M) (x : Unit {0})
    → Ends (halt_unless f m) m' x
    → f m ≡ (m', true)
halt_unless-Ends f m m' x h = tested (f m) m' x h

then_pass :
    {M : Type 0} (q : M × Bool) (g : M → M × Bool)
    → q.1 ≡ true
    → (g q.0).1 ≡ true
    → (◌>>◌ {M = M} (λ _. (q.0, if q.1 then some tt else none)) (halt_unless g) q.0).1 ≡ some tt
then_pass (m1, false) g h k = absurd (ground arith)
then_pass (m1, true) g h k = rw k refl

-- Two checks that succeed one after the other are passed.
pub both_pass :
    {M : Type 0} (f g : M → M × Bool) (m : M)
    → (f m).1 ≡ true
    → (g (f m).0).1 ≡ true
    → ((halt_unless f >> halt_unless g) m).1 ≡ some tt
both_pass f g m h k = then_pass (f m) g h k
