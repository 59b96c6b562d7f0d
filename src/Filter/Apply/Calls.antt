-- ===== src/Filter/Apply/Calls.antt =====
-- What the monitors receive from a list of calls (app-rot/src/filter.rs).
use mcu_runtime.Base.{
  ℕ, suc, ◌+◌, ◌-◌, ◌≤◌, ◌<◌, ◌≡◌, ◌≢◌, refl, ap, inl, inr, Bool, true, false, if◌then◌else◌, ◌==◌,
  Bool-cases, any, Option, none, some, List, [], ◌∷◌, ◌++◌, length, get_or, arith,
}
use native.Mathlib.Decide.{ℕ_discrete}
use mcu_runtime.Filter.Apply.{
  MonitorCall, Call, monitor, scu_write, set_filter_enable, set_address_table, set_irq_enable,
  set_tables, calls_of_all,
}

-- The calls that one monitor receives.
abbrev pub calls_of : ℕ → List Call → List MonitorCall
calls_of inst [] = []
calls_of inst (monitor i c ∷ calls) =
    let rest = calls_of inst calls in if inst == i then c ∷ rest else rest
calls_of inst (scu_write value ∷ calls) = calls_of inst calls

-- The call enables or disables the filter.
abbrev pub switches : MonitorCall → Bool
switches (set_filter_enable on) = true
switches _ = false

-- The word that an entry of the table has behind some calls, if they set it.
abbrev pub last_word : ℕ → List MonitorCall → Option ℕ
last_word entry [] = none
last_word entry (set_address_table i word ∷ calls) = elim (last_word entry calls) [
  | some later ↦ some later
  | none ↦ if entry == i then some word else none
]
last_word entry (_ ∷ calls) = last_word entry calls

pub calls_of-append :
    (inst : ℕ) (xs ys : List Call) → calls_of inst (xs ++ ys) ≡ calls_of inst xs ++ calls_of inst ys
calls_of-append inst [] ys = refl
calls_of-append inst (monitor i c ∷ xs) ys = elim (Bool-cases (inst == i)) [
  | inl e ↦ rw e (ap (λ (r : List MonitorCall). c ∷ r) (calls_of-append inst xs ys))
  | inr e ↦ rw e (calls_of-append inst xs ys)
]
calls_of-append inst (scu_write value ∷ xs) ys = calls_of-append inst xs ys

pub calls_of-same : (inst : ℕ) (cs : List MonitorCall) → calls_of inst (calls_of_all inst cs) ≡ cs
unfolding calls_of_all
calls_of-same inst [] = refl
calls_of-same inst (c ∷ cs) = ground (arith, calls_of-same inst cs)

pub calls_of-other :
    (inst i : ℕ) (cs : List MonitorCall) → inst ≢ i → calls_of inst (calls_of_all i cs) ≡ []
unfolding calls_of_all
calls_of-other inst i [] d = refl
calls_of-other inst i (c ∷ cs) d = ground (arith, calls_of-other inst i cs d)

last_word-below :
    (entry first : ℕ) (table : List ℕ)
    → entry < first
    → last_word entry (set_tables first table ++ (set_irq_enable true true true ∷ [])) ≡ none
unfolding set_tables
last_word-below entry first [] h = refl
last_word-below entry first (w ∷ table) h =
    let rest = last_word-below entry (first + 1) table (omega arith) in ground arith

pub last_word-table :
    (entry first : ℕ) (table : List ℕ)
    → first ≤ entry
    → entry < first + length table
    → last_word entry (set_tables first table ++ (set_irq_enable true true true ∷ []))
      ≡ some (get_or table (entry - first) 0)
unfolding set_tables
last_word-table entry first [] h u = absurd (omega arith)
last_word-table entry first (w ∷ table) h u = elim (ℕ_discrete entry first) [
  | yes e ↦
      let below = last_word-below entry (first + 1) table (omega arith) in
      let here : (entry == first) ≡ true = ground arith in
      let zeroth : entry - first ≡ 0 = omega arith in rw below (rw here (rw zeroth refl))
  | no d ↦
      let rest = last_word-table entry (first + 1) table (omega arith) (omega arith) in
      let next : entry - first ≡ suc (entry - (first + 1)) = omega arith in rw rest (rw next refl)
]

pub unswitched :
    (first : ℕ) (table : List ℕ)
    → any switches (set_tables first table ++ (set_irq_enable true true true ∷ [])) ≡ false
unfolding set_tables
unswitched first [] = refl
unswitched first (w ∷ table) = unswitched (first + 1) table
