-- ===== src/Bootmcu/Load/Compared.antt =====
-- What a loaded payload is compared for (app-rot/src/bin/rot_ast2700_bootmcu.rs).
use mcu_runtime.Base.{
  ℕ, zero, suc, ◌+◌, ◌-◌, ◌*◌, ◌<◌, ◌≡◌, refl, sym, ◌∙◌, if◌then◌else◌, ◌↔◌, ◌⊎◌, Bool, true, false,
  ◌&&◌, List, [], ◌∷◌, All, arith,
}
use mcu_runtime.Bootmcu.Load.{
  Bus, spi_base, nor_flash, head_words, tail_words, verify_payload, copy_words, load_rounds,
  copy_rounds, load_payload_word_copy_first, load_payload_from_boot_media, payload_load_attempts,
}

-- The four words from an address on.
abbrev words : (ℕ → ℕ) → ℕ → List ℕ
words rd a = rd (a + 0 * 4) ∷ rd (a + 1 * 4) ∷ rd (a + 2 * 4) ∷ rd (a + 3 * 4) ∷ []

-- A word that erased or zeroed flash has.
abbrev IsBlank : ℕ → Type 0
IsBlank w = (w ≡ 0) ⊎ (w ≡ 0xffffffff)

tail_words_iff :
    (rd : ℕ → ℕ) (src dst : ℕ) (ok : Bool)
    → (tail_words 4 rd src dst 0 ok ≡ true) ↔ ((ok ≡ true) × (words rd src ≡ words rd dst))
unfolding tail_words
tail_words_iff rd src dst ok = ground arith

head_words_iff :
    (rd : ℕ → ℕ) (src dst : ℕ)
    → (((head_words 4 rd src dst 0 true false).0 ≡ true) ↔ (words rd src ≡ words rd dst))
      × (((head_words 4 rd src dst 0 true false).1 ≡ true) ↔ ¬ All IsBlank (words rd src))
unfolding head_words
head_words_iff rd src dst = ground arith

module _ {M : Type 0} (b : Bus M) where
  -- What `verify_payload` accepts in a memory: the first four words of the destination are those of
  -- flash, the last four as well if there are four words, and one of the first four in flash is
  -- neither 0 nor all ones.
  pub record IsLoaded (flash_offset dst len : ℕ) (m : M) : Type 0 where
    pub head : words (b.rd32 m) (spi_base + flash_offset) ≡ words (b.rd32 m) dst
    pub tail :
        (len < 16)
        ⊎ (words (b.rd32 m) (spi_base + flash_offset + (len - 16))
            ≡ words (b.rd32 m) (dst + (len - 16)))
    pub written : ¬ All IsBlank (words (b.rd32 m) (spi_base + flash_offset))

  -- `verify_payload` accepts exactly what is loaded.
  pub verify_payload_iff :
      (flash_offset dst len : ℕ) (m : M)
      → (verify_payload b flash_offset dst len m ≡ true) ↔ IsLoaded flash_offset dst len m
  unfolding verify_payload
  verify_payload_iff flash_offset dst len m =
      let rd = b.rd32 m in
      let src = spi_base + flash_offset in
      let tail = len - 16 in
      let (ok, non_blank) = head_words 4 rd src dst 0 true false in
      let front = head_words_iff rd src dst in
      let back = tail_words_iff rd (src + tail) (dst + tail) ok in ground arith

  -- The result of a load is the comparison in the memory that it leaves.
  abbrev IsCompared : ℕ → ℕ → ℕ → M × Bool → Type 0
  IsCompared flash_offset dst len (m, loaded) = loaded ≡ verify_payload b flash_offset dst len m

  if-IsCompared :
      (flash_offset dst len : ℕ) (c : Bool) (x y : M × Bool)
      → (c ≡ true → IsCompared flash_offset dst len x)
      → (c ≡ false → IsCompared flash_offset dst len y)
      → IsCompared flash_offset dst len (if c then x else y)
  if-IsCompared flash_offset dst len true x y h k = h refl
  if-IsCompared flash_offset dst len false x y h k = k refl

  load_rounds-IsCompared :
      (n flash_offset dst len : ℕ) (m : M)
      → (n ≡ 0 → verify_payload b flash_offset dst len m ≡ false)
      → IsCompared flash_offset dst len (load_rounds b n flash_offset dst len m)
  unfolding load_rounds copy_words
  load_rounds-IsCompared zero flash_offset dst len m h = sym (h refl)
  load_rounds-IsCompared (suc n) flash_offset dst len m h =
      let (m1, read) = b.dma_read flash_offset dst len (b.enable_4byte_addr m) in
      let m2 = b.load_raw flash_offset dst len m1 in
      if-IsCompared flash_offset dst len (read && verify_payload b flash_offset dst len m1) _ _
        (λ e. ground arith)
        λ _.
          if-IsCompared flash_offset dst len (verify_payload b flash_offset dst len m2) _ _ sym
            λ e. load_rounds-IsCompared n flash_offset dst len m2 (λ _. e)

  copy_rounds-IsCompared :
      (n flash_offset dst len : ℕ) (m : M)
      → (n ≡ 0 → verify_payload b flash_offset dst len m ≡ false)
      → IsCompared flash_offset dst len (copy_rounds b n flash_offset dst len m)
  unfolding copy_rounds copy_words
  copy_rounds-IsCompared zero flash_offset dst len m h = sym (h refl)
  copy_rounds-IsCompared (suc n) flash_offset dst len m h =
      let m1 = b.load_raw flash_offset dst len (b.enable_4byte_addr m) in
      if-IsCompared flash_offset dst len (verify_payload b flash_offset dst len m1) _ _ sym
        λ e. copy_rounds-IsCompared n flash_offset dst len m1 (λ _. e)

  -- Loading from NOR flash, by either function or through the boot mode, returns true exactly when
  -- the payload is loaded in the memory that it leaves, however the transfers behave.
  pub load_iff :
      (flash_offset dst len : ℕ) (m : M)
      → let (m1, loaded) = load_payload_from_boot_media b nor_flash flash_offset dst len m in
        let (m2, copied) = load_payload_word_copy_first b flash_offset dst len m in
        ((loaded ≡ true) ↔ IsLoaded flash_offset dst len m1)
        × ((copied ≡ true) ↔ IsLoaded flash_offset dst len m2)
  unfolding load_payload_from_boot_media load_payload_word_copy_first
  load_iff flash_offset dst len m =
      let (m1, loaded) = load_rounds b payload_load_attempts flash_offset dst len m in
      let (m2, copied) = copy_rounds b payload_load_attempts flash_offset dst len m in
      let p : loaded ≡ verify_payload b flash_offset dst len m1 =
        load_rounds-IsCompared payload_load_attempts flash_offset dst len m
          (λ e. absurd (omega arith)) in
      let q : copied ≡ verify_payload b flash_offset dst len m2 =
        copy_rounds-IsCompared payload_load_attempts flash_offset dst len m
          (λ e. absurd (omega arith)) in
      let first = verify_payload_iff flash_offset dst len m1 in
      let second = verify_payload_iff flash_offset dst len m2 in
      (
        (λ e. first.0 (sym p ∙ e), λ l. p ∙ first.1 l),
        (λ e. second.0 (sym q ∙ e), λ l. q ∙ second.1 l),
      )
