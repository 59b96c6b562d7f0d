-- ===== src/Platform/Ast1060/Flash/Paged.antt =====
-- Writing to and reading from a slot (app-rot/src/platform/ast1060.rs).
use mcu_runtime.Base.{
  ℕ, zero, suc, ◌+◌, ◌%◌, ◌≤◌, ◌<◌, ◌≡◌, refl, ap, ◌∙◌, ◌⊎◌, inl, inr, List, [], ◌∷◌, length, take,
  drop, length-take, length-drop, Result, ok, err, Result-cases, arith,
}
use mcu_runtime.Base.Words.{IsU32}
use mcu_runtime.Base.Bits.{and_0xff}
use mcu_runtime.Flash.{Slot}
use mcu_runtime.Platform.Ast1060.Flash.Contents.{
  overlay, bytes_from, overlay_outside, overlay-split, bytes_from-ext, bytes_from-overlay,
}
use mcu_runtime.Platform.Ast1060.Flash.{
  SpiHal, FlashSlot, Ast1060FlashError, spi, chunk_len, find_mapping, bus, read, write_pages, write,
}

-- The documented behaviour of the bus, with `view` the byte at an address of a chip: reading copies
-- a range, and programming a range of erased bytes within one page of 256 bytes, if it succeeds,
-- stores these bytes and leaves the others.
pub record IsChip {K M E : Type 0} (hal : SpiHal K M E) (view : M → K → ℕ → ℕ → ℕ) : Type 0 where
  pub reads :
      (k : K) (ce p len : ℕ) (m : M)
      → hal.read_memory_mapped k ce p len m ≡ bytes_from (view m k ce) p len
  pub programs :
      (k : K) (ce p : ℕ) (bytes : List ℕ) (m : M)
      → p % 256 + length bytes ≤ 256
      → ((a : ℕ) → p ≤ a → a < p + length bytes → view m k ce a ≡ 0xff)
      → (hal.write_page k ce p bytes m).1 ≡ ok tt
      → (a : ℕ) → view (hal.write_page k ce p bytes m).0 k ce a ≡ overlay (view m k ce) p bytes a

module _ {K M E : Type 0} (hal : SpiHal K M E) (view : M → K → ℕ → ℕ → ℕ)
    (chip : IsChip hal view) where
  -- Either the result is ok and the bytes are stored, with the rest of the chip as it was, or the
  -- bus refused a page.
  abbrev pub Stored : K → ℕ → ℕ → List ℕ → M → M × Result (Unit {0}) (Ast1060FlashError E) → Type 0
  Stored k ce p bytes m (m', r) =
      ((r ≡ ok tt) × ((a : ℕ) → view m' k ce a ≡ overlay (view m k ce) p bytes a))
      ⊎ ((e : E) × (r ≡ err (spi e)))

  abbrev pub IsErased : K → ℕ → ℕ → ℕ → M → Type 0
  IsErased k ce p len m = (a : ℕ) → p ≤ a → a < p + len → view m k ce a ≡ 0xff

  first_page_ok :
      (n base : ℕ) (k : K) (ce offset x : ℕ) (xs : List ℕ) (m : M)
      → let bytes = x ∷ xs in
        let c = chunk_len bytes offset in
        let (m', r) = hal.write_page k ce (base + offset) (take c bytes) m in
        IsU32 (base + offset + length bytes)
        → r ≡ ok tt
        → write_pages hal (suc n) base k ce offset bytes m
          ≡ write_pages hal n base k ce (offset + c) (drop c bytes) m'
  unfolding write_pages
  first_page_ok n base k ce offset x xs m u e = ground arith

  first_page_err :
      (n base : ℕ) (k : K) (ce offset x : ℕ) (xs : List ℕ) (m : M) (q : E)
      → let bytes = x ∷ xs in
        let (m', r) = hal.write_page k ce (base + offset) (take (chunk_len bytes offset) bytes) m in
        IsU32 (base + offset + length bytes)
        → r ≡ err q
        → write_pages hal (suc n) base k ce offset bytes m ≡ (m', err (spi q))
  unfolding write_pages
  first_page_err n base k ce offset x xs m q u e = ground arith

  Stored-split :
      (k : K) (ce p n : ℕ) (bytes : List ℕ) (m m' : M)
      (r : M × Result (Unit {0}) (Ast1060FlashError E))
      → n ≤ length bytes
      → ((a : ℕ) → view m' k ce a ≡ overlay (view m k ce) p (take n bytes) a)
      → Stored k ce (p + n) (drop n bytes) m' r
      → Stored k ce p bytes m r
  Stored-split k ce p n bytes m m' r h f (inl (e, g)) =
      inl (e, λ a. g a ∙ overlay-split (view m k ce) (view m' k ce) p n bytes a h (f a))
  Stored-split k ce p n bytes m m' r h f (inr s) = inr s

  write_pages-Stored :
      (n base : ℕ) (k : K) (ce offset : ℕ) (bytes : List ℕ) (m : M)
      → length bytes ≤ n
      → base % 256 ≡ 0
      → IsU32 (base + offset + length bytes)
      → IsErased k ce (base + offset) (length bytes) m
      → Stored k ce (base + offset) bytes m (write_pages hal n base k ce offset bytes m)
  write_pages-Stored n base k ce offset [] m hn hb hu he =
      inl (unfold write_pages in refl, λ a. unfold write_pages in ground arith)
  write_pages-Stored zero base k ce offset (x ∷ xs) m hn hb hu he = absurd (omega arith)
  write_pages-Stored (suc n) base k ce offset (x ∷ xs) m hn hb hu he =
      let bytes = x ∷ xs in
      let c = chunk_len bytes offset in
      let p = base + offset in
      let chunk = take c bytes in
      let m' = (hal.write_page k ce p chunk m).0 in
      let positive : 0 < c = omega (arith, and_0xff offset) in
      let short : c ≤ length bytes = omega arith in
      let size = length-take c bytes short in
      let paged : p % 256 + length chunk ≤ 256 = omega (arith, and_0xff offset, size) in
      elim (Result-cases (hal.write_page k ce p chunk m).1) [
        | inr (q, e) ↦ rw (first_page_err n base k ce offset x xs m q hu e) (inr (q, refl))
        | inl (tt, e) ↦
            let stored =
              chip.programs k ce p chunk m paged (λ a l u. he a l (omega (arith, size))) e in
            let next : p + c ≡ base + (offset + c) = omega arith in
            let rest =
              write_pages-Stored n base k ce (offset + c) (drop c bytes) m'
                (omega (arith, length-drop c bytes)) hb (omega (arith, length-drop c bytes))
                (λ a l u.
                  stored a
                  ∙ overlay_outside (view m k ce) p chunk a (inr (omega (arith, size)))
                  ∙ he a (omega arith) (omega (arith, length-drop c bytes))) in
            rw (first_page_ok n base k ce offset x xs m hu e)
              (Stored-split k ce p c bytes m m' _ short stored (rw next rest))
      ]

  write_same :
      (slots : List (FlashSlot K)) (slot : Slot) (mapping : FlashSlot K) (offset : ℕ)
      (bytes : List ℕ) (m : M)
      → find_mapping hal slots slot offset (length bytes) ≡ ok mapping
      → bus hal mapping ≡ ok (mapping.controller, mapping.ce)
      → write hal slots slot offset bytes m
        ≡ write_pages hal (length bytes) mapping.offset mapping.controller mapping.ce offset bytes m
  unfolding write
  write_same slots slot mapping offset bytes m f s = ground arith

  read_same :
      (slots : List (FlashSlot K)) (slot : Slot) (mapping : FlashSlot K) (offset len : ℕ) (m : M)
      → find_mapping hal slots slot offset len ≡ ok mapping
      → bus hal mapping ≡ ok (mapping.controller, mapping.ce)
      → IsU32 (mapping.offset + offset)
      → read hal slots slot offset len m
        ≡ ok (bytes_from (view m mapping.controller mapping.ce) (mapping.offset + offset) len)
  unfolding read
  read_same slots slot mapping offset len m f s u =
      let e = chip.reads mapping.controller mapping.ce (mapping.offset + offset) len m in
      ground arith

  -- On a chip that behaves as documented, a write into an erased range of a slot that starts on a page
  -- boundary, on a chip select that exists and at addresses of 32 bits, either succeeds, and then
  -- reading the range gives the bytes back and each byte of the chip outside of it is as it was, or
  -- it ends with an error of the bus; it ends with no other error.
  pub read-write :
      (slots : List (FlashSlot K)) (slot : Slot) (mapping : FlashSlot K) (offset : ℕ)
      (bytes : List ℕ) (m : M) (a : ℕ)
      → find_mapping hal slots slot offset (length bytes) ≡ ok mapping
      → mapping.ce ≤ 1
      → mapping.offset % 256 ≡ 0
      → IsU32 (mapping.offset + offset + length bytes)
      → IsErased mapping.controller mapping.ce (mapping.offset + offset) (length bytes) m
      → (a < mapping.offset + offset) ⊎ (mapping.offset + offset + length bytes ≤ a)
      → let (m', r) = write hal slots slot offset bytes m in
        ((r ≡ ok tt)
          × (read hal slots slot offset (length bytes) m' ≡ ok bytes)
          × (view m' mapping.controller mapping.ce a ≡ view m mapping.controller mapping.ce a))
        ⊎ ((e : E) × (r ≡ err (spi e)))
  read-write slots slot mapping offset bytes m a f c b u e o =
      let k = mapping.controller in
      let p = mapping.offset + offset in
      let select : bus hal mapping ≡ ok (k, mapping.ce) = unfold bus in ground arith in
      let same = write_same slots slot mapping offset bytes m f select in
      let (m', r) = write_pages hal (length bytes) mapping.offset k mapping.ce offset bytes m in
      rw same
        (elim (write_pages-Stored (length bytes) mapping.offset k mapping.ce offset bytes m
          (omega arith) b u e) [
            | inr q ↦ inr q
            | inl (d, g) ↦ inl (
              d,
              read_same slots slot mapping offset (length bytes) m' f select (omega arith)
                  ∙ ap (λ (bs : List ℕ). ok bs)
                      (bytes_from-ext (view m' k mapping.ce) (overlay (view m k mapping.ce) p bytes)
                          p (length bytes) (λ x l v. g x)
                        ∙ bytes_from-overlay (view m k mapping.ce) p bytes),
              g a ∙ overlay_outside (view m k mapping.ce) p bytes a o,
            )
          ])
