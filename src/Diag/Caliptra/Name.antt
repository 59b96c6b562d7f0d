-- ===== src/Diag/Caliptra/Name.antt =====
-- The name of a version of Caliptra (app-rot/src/bin/caliptra_hello_bootmcu.rs).
use mcu_runtime.Base.{
  ℕ, zero, suc, ◌+◌, ◌≤◌, ◌≡◌, ◌≢◌, refl, ap, ◌∙◌, ◌⊎◌, inl, inr, ◌==◌, ==_iff, Bool-cases, none,
  some, List, [], ◌∷◌, ◌++◌, length, take, All, arith,
}
use mcu_runtime.Diag.Caliptra.{position_zero, shown_name}

-- What is to be shown of a field: the name is the front of it, no zero is in it, and it ends where
-- the field ends or in front of a zero.
pub record IsName (field name : List ℕ) : Type 0 where
  pub rest : List ℕ
  pub front : field ≡ name ++ rest
  pub visible : All (λ b. b ≢ 0) name
  pub ended : (rest ≡ []) ⊎ ((bs : List ℕ) × (rest ≡ 0 ∷ bs))

IsName-cons :
    (b : ℕ) (field name : List ℕ) → b ≢ 0 → IsName field name → IsName (b ∷ field) (b ∷ name)
IsName-cons b field name d n = record {
  rest = n.rest;
  front = ap (λ xs. b ∷ xs) n.front;
  visible = (d, n.visible);
  ended = n.ended;
}

-- Either no zero is in the field, or the front of it up to the first.
cut :
    (i : ℕ) (bs : List ℕ)
    → ((position_zero i bs ≡ none) × IsName bs bs)
      ⊎ ((k : ℕ) × (position_zero i bs ≡ some (i + k)) × IsName bs (take k bs))
unfolding position_zero
cut i [] = inl (refl, record { rest = []; front = refl; visible = tt; ended = inl refl })
cut i (b ∷ bs) = elim (Bool-cases (b == 0)) [
  | inl e ↦
      let z : b ≡ 0 = (==_iff b 0).0 e in
      let n : IsName (b ∷ bs) [] = record {
        rest = b ∷ bs;
        front = refl;
        visible = tt;
        ended = inr (bs, ap (λ c. c ∷ bs) z);
      } in
      inr (0, rw e (ap some (omega arith)), n)
  | inr e ↦
      let d : b ≢ 0 = λ z. ground arith in
      elim (cut (suc i) bs) [
        | inl (p, n) ↦ inl (rw e p, IsName-cons b bs bs d n)
        | inr (k, p, n) ↦
            inr (suc k, rw e (p ∙ ap some (omega arith)), IsName-cons b bs (take k bs) d n)
      ]
]

take-all : (n : ℕ) (xs : List ℕ) → length xs ≤ n → take n xs ≡ xs
take-all zero [] h = refl
take-all zero (x ∷ xs) h = absurd (omega arith)
take-all (suc n) [] h = refl
take-all (suc n) (x ∷ xs) h = ap (λ ys. x ∷ ys) (take-all n xs (omega arith))

-- Of a field of twelve bytes the name is shown that stands in front of its first zero, or all of it
-- where it has none.
pub shown_name-IsName : (field : List ℕ) → length field ≡ 12 → IsName field (shown_name field)
unfolding shown_name
shown_name-IsName field h = elim (cut 0 field) [
  | inl (p, n) ↦ rw (p, take-all 12 field (omega arith)) n
  | inr (k, p, n) ↦ let z : 0 + k ≡ k = omega arith in rw (p, z) n
]
