-- ===== src/Diag/Memory/Wired.antt =====
-- What the memory tests (app-rot/src/bin/dram_init_bootmcu.rs) find in a memory by its wires.
use native.Mathlib.Decide.{ℕ_discrete}
use mcu_runtime.Base.{
  ℕ, zero, suc, ◌+◌, ◌<◌, ◌≡◌, refl, sym, ap, ◌∙◌, true, false, if◌then◌else◌, ◌==◌, ◌↔◌, ◌⊎◌, inl,
  inr, List, [], ◌∷◌, length, get_or, arith,
}
use mcu_runtime.Diag.Memory.{Ram, add, write_patterns, check_patterns, pattern_test}

-- A memory whose address lines select a cell and whose data lines change what is stored: two
-- addresses may share a cell, and a word may not come back as it was written.
abbrev pub wired : (ℕ → ℕ) → (ℕ → ℕ) → Ram (ℕ → ℕ)
wired cell lines = record {
  read_volatile = λ a m. m (cell a);
  write_volatile = λ a v m c. if c == cell a then lines v else m c;
}

module _ (cell lines : ℕ → ℕ) (base : ℕ) where
  abbrev ram : Ram (ℕ → ℕ)
  ram = wired cell lines

  -- A cell has what a word behind `i` became, and the word is one of the cell.
  abbrev Left : List ℕ → ℕ → ℕ → ℕ → Type 0
  Left vs i c w =
      (j : ℕ) × (j < length vs) × (cell (add base (i + j)) ≡ c) × (w ≡ lines (get_or vs j 0))

  later : (v : ℕ) (vs : List ℕ) (i c w : ℕ) → Left vs (suc i) c w → Left (v ∷ vs) i c w
  later v vs i c w (j, h, e, q) =
      (suc j, omega arith, ap (λ (t : ℕ). cell (add base t)) (omega arith) ∙ e, q)

  -- The words behind `i` leave a cell as it was, or one of them is left in it.
  written :
      (vs : List ℕ) (i c : ℕ) (m : ℕ → ℕ)
      → let w = write_patterns ram base i vs m c in (w ≡ m c) ⊎ Left vs i c w
  unfolding write_patterns
  written [] i c m = inl refl
  written (v ∷ vs) i c m =
      let m' = ram.write_volatile (add base i) v m in
      elim (written vs (suc i) c m') [
        | inr x ↦ inr (later v vs i c _ x)
        | inl e ↦ elim (ℕ_discrete c (cell (add base i))) [
          | yes q ↦
              let t : (c == cell (add base i)) ≡ true = ground arith in
              inr (
                0,
                omega arith,
                ap (λ (t : ℕ). cell (add base t)) (omega arith) ∙ sym q,
                e ∙ rw t refl,
              )
          | no d ↦ let t : (c == cell (add base i)) ≡ false = ground arith in inl (e ∙ rw t refl)
        ]
      ]

  -- Every word is read as what a word of its cell became.
  last_word :
      (vs : List ℕ) (i k : ℕ) (m : ℕ → ℕ)
      → k < length vs
      → let c = cell (add base (i + k)) in Left vs i c (write_patterns ram base i vs m c)
  unfolding write_patterns
  last_word [] i k m h = absurd (omega arith)
  last_word (v ∷ vs) i zero m h =
      let m' = ram.write_volatile (add base i) v m in
      let w : i + 0 ≡ i = omega arith in
      let c = cell (add base i) in
      rw w (elim (written vs (suc i) c m') [
        | inr x ↦ later v vs i c _ x
        | inl e ↦
            let t : (c == c) ≡ true = ground arith in
            (0, omega arith, ap (λ (t : ℕ). cell (add base t)) w, e ∙ rw t refl)
      ])
  last_word (v ∷ vs) i (suc k) m h =
      let m' = ram.write_volatile (add base i) v m in
      let w : i + suc k ≡ suc i + k = omega arith in
      rw w (later v vs i (cell (add base (suc i + k))) _ (last_word vs (suc i) k m' (omega arith)))

  check_patterns-reads :
      (vs : List ℕ) (i k : ℕ) (m : ℕ → ℕ)
      → check_patterns ram base i vs m ≡ true
      → k < length vs
      → m (cell (add base (i + k))) ≡ get_or vs k 0
  unfolding check_patterns
  check_patterns-reads [] i k m h l = absurd (omega arith)
  check_patterns-reads (v ∷ vs) i zero m h l =
      let w : i + 0 ≡ i = omega arith in rw w (ground (arith, h))
  check_patterns-reads (v ∷ vs) i (suc k) m h l =
      let w : i + suc k ≡ suc i + k = omega arith in
      rw w (check_patterns-reads vs (suc i) k m (ground (arith, h)) (omega arith))

  reads-check_patterns :
      (vs : List ℕ) (i : ℕ) (m : ℕ → ℕ)
      → ((k : ℕ) → k < length vs → m (cell (add base (i + k))) ≡ get_or vs k 0)
      → check_patterns ram base i vs m ≡ true
  unfolding check_patterns
  reads-check_patterns [] i m h = refl
  reads-check_patterns (v ∷ vs) i m h =
      let first : m (cell (add base i)) ≡ v =
        ap (λ (t : ℕ). m (cell (add base t))) (omega arith) ∙ h 0 (omega arith) in
      let t : (m (cell (add base i)) == v) ≡ true = ground arith in
      rw t (
        reads-check_patterns vs (suc i) m
          (λ k l. ap (λ (t : ℕ). m (cell (add base t))) (omega arith) ∙ h (suc k) (omega arith)))

  -- The wires carry the patterns of a test: each pattern comes back over the data lines, and words
  -- that share a cell have the same pattern.
  pub record IsCarried (vs : List ℕ) : Type 0 where
    pub data_lines : (k : ℕ) → k < length vs → lines (get_or vs k 0) ≡ get_or vs k 0
    pub address_lines :
        (j k : ℕ)
        → j < length vs
        → k < length vs
        → cell (add base j) ≡ cell (add base k)
        → get_or vs j 0 ≡ get_or vs k 0

  -- What a test leaves at word `k`.
  abbrev left : List ℕ → (ℕ → ℕ) → ℕ → ℕ
  left vs m k = write_patterns ram base 0 vs m (cell (add base k))

  plain : (k : ℕ) → cell (add base (0 + k)) ≡ cell (add base k)
  plain k = ap (λ (t : ℕ). cell (add base t)) (omega arith)

  last :
      (vs : List ℕ) (k : ℕ) (m : ℕ → ℕ)
      → k < length vs
      → (j : ℕ) × (j < length vs)
        × (cell (add base j) ≡ cell (add base k))
        × (left vs m k ≡ lines (get_or vs j 0))
  last vs k m l =
      let (j, h, e, q) = last_word vs 0 k m l in
      (j, h, sym (plain j) ∙ e ∙ plain k, ap (write_patterns ram base 0 vs m) (sym (plain k)) ∙ q)

  carried-reads :
      (vs : List ℕ) (m : ℕ → ℕ)
      → IsCarried vs
      → (k : ℕ) → k < length vs
      → write_patterns ram base 0 vs m (cell (add base (0 + k))) ≡ get_or vs k 0
  carried-reads vs m c k l =
      let (j, h, e, q) = last vs k m l in
      ap (write_patterns ram base 0 vs m) (plain k)
      ∙ q
      ∙ c.data_lines j h
      ∙ c.address_lines j k h l e

  reads-IsCarried :
      (vs : List ℕ) (m : ℕ → ℕ)
      → ((k : ℕ) → k < length vs → left vs m k ≡ get_or vs k 0)
      → IsCarried vs
  reads-IsCarried vs m r = record {
    data_lines = λ k l.
        let (j, h, e, q) = last vs k m l in
        let same : get_or vs j 0 ≡ get_or vs k 0 =
          sym (r j h) ∙ ap (write_patterns ram base 0 vs m) e ∙ r k l in
        ap lines (sym same) ∙ sym q ∙ r k l;
    address_lines = λ j k h l e. sym (r j h) ∙ ap (write_patterns ram base 0 vs m) e ∙ r k l;
  }

  -- `pattern_test` succeeds exactly where the wires carry its patterns, whatever the memory held.
  pub pattern_test_iff :
      (vs : List ℕ) (m : ℕ → ℕ) → ((pattern_test ram base vs m).1 ≡ true) ↔ IsCarried vs
  unfolding pattern_test
  pattern_test_iff vs m = (
    λ t.
        let m' = write_patterns ram base 0 vs m in
        reads-IsCarried vs m (λ k l. ap m' (sym (plain k)) ∙ check_patterns-reads vs 0 k m' t l),
    λ c. reads-check_patterns vs 0 _ (carried-reads vs m c),
  )
