-- ===== src/Platform/Ast1060/Flash.antt =====
-- The flash backend of the AST1060 (app-rot/src/platform/ast1060.rs). The SPI bus of the HAL is a
-- parameter; a call of it returns the state that it leaves.
pub mod Contents
pub mod Paged
use mcu_runtime.Base.{
  ℕ, zero, suc, ◌+◌, ◌-◌, bit_and, min, Bool, ◌&&◌, if◌then◌else◌, ltb, leb, Option, none, some,
  List, [], ◌∷◌, length, find, take, drop, Result, ok, err,
}
use mcu_runtime.Base.Words.{checked_add}
use mcu_runtime.Base.Results.{◌>>=◌, ok_or, map_err}
use mcu_runtime.Flash.{Slot, same_slot}
use mathlib.Core.Option

-- `SpiBus::read_memory_mapped`, `write_page` and `erase_sector`, on a controller and a chip
-- select; `K` is the type of controllers, `E` that of the bus's errors.
pub record SpiHal (K M E : Type 0) : Type 0 where
  pub read_memory_mapped : K → ℕ → ℕ → ℕ → M → List ℕ
  pub write_page : K → ℕ → ℕ → List ℕ → M → M × Result (Unit {0}) E
  pub erase_sector : K → ℕ → ℕ → M → M × Result (Unit {0}) E

pub record FlashSlot (K : Type 0) : Type 0 where
  pub slot : Slot
  pub controller : K
  pub ce : ℕ
  pub offset : ℕ
  pub size : ℕ

pub data Ast1060FlashError (E : Type 0) : Type 0 where
  out_of_range invalid_chip_select : Ast1060FlashError E
  spi : E → Ast1060FlashError E

-- `data.len().min(page_remaining)`.
abbrev pub chunk_len : List ℕ → ℕ → ℕ
chunk_len bytes offset = min (length bytes) (256 - bit_and offset 0xff)

module _ {K M E : Type 0} (hal : SpiHal K M E) where
  -- `find`, on the array of mappings.
  unfoldable pub find_mapping :
      List (FlashSlot K) → Slot → ℕ → ℕ → Result (FlashSlot K) (Ast1060FlashError E)
  find_mapping slots slot offset len = do
    end ← ok_or (checked_add offset len) out_of_range
    ok_or (find (λ s. same_slot s.slot slot && leb end s.size) slots) out_of_range

  -- `bus`, whose result is the controller and the chip select.
  unfoldable pub bus : FlashSlot K → Result (K × ℕ) (Ast1060FlashError E)
  bus s = if ltb 1 s.ce then err invalid_chip_select else ok (s.controller, s.ce)

  unfoldable pub read :
      List (FlashSlot K) → Slot → ℕ → ℕ → M → Result (List ℕ) (Ast1060FlashError E)
  unfolding find_mapping bus
  read slots slot offset len m = do
    mapping ← find_mapping slots slot offset len
    (k, ce) ← bus mapping
    p ← ok_or (checked_add mapping.offset offset) out_of_range
    ok (hal.read_memory_mapped k ce p len m)

  unfoldable pub region_size : List (FlashSlot K) → Slot → Option ℕ
  region_size slots slot = Option.map (λ s. s.size) (find (λ s. same_slot s.slot slot) slots)

  -- The loop of `write`, for at most `n` rounds: one page, or its part, in a round.
  unfoldable pub write_pages :
      ℕ → ℕ → K → ℕ → ℕ → List ℕ → M → M × Result (Unit {0}) (Ast1060FlashError E)
  write_pages n base k ce offset [] m = (m, ok tt)
  write_pages zero base k ce offset (x ∷ xs) m = (m, err out_of_range)
  write_pages (suc n) base k ce offset (x ∷ xs) m =
      let bytes = x ∷ xs in
      let n_bytes = chunk_len bytes offset in
      elim (checked_add base offset) [
        | none ↦ (m, err out_of_range)
        | some p ↦
            let (m', r) = hal.write_page k ce p (take n_bytes bytes) m in
            elim r [
              | err e ↦ (m', err (spi e))
              | ok _ ↦ elim (checked_add offset n_bytes) [
                | none ↦ (m', err out_of_range)
                | some next ↦ write_pages n base k ce next (drop n_bytes bytes) m'
              ]
            ]
      ]

  -- A round takes a byte at least, so as many rounds as bytes are enough.
  unfoldable pub write :
      List (FlashSlot K) → Slot → ℕ → List ℕ → M → M × Result (Unit {0}) (Ast1060FlashError E)
  unfolding find_mapping bus write_pages
  write slots slot offset bytes m = elim (find_mapping slots slot offset (length bytes)) [
    | err e ↦ (m, err e)
    | ok mapping ↦ elim (bus mapping) [
      | err e ↦ (m, err e)
      | ok (k, ce) ↦ write_pages (length bytes) mapping.offset k ce offset bytes m
    ]
  ]

  unfoldable pub erase_sector :
      List (FlashSlot K) → Slot → ℕ → M → M × Result (Unit {0}) (Ast1060FlashError E)
  unfolding find_mapping bus
  erase_sector slots slot sector_offset m = elim (find_mapping slots slot sector_offset 4096) [
    | err e ↦ (m, err e)
    | ok mapping ↦ elim (bus mapping) [
      | err e ↦ (m, err e)
      | ok (k, ce) ↦ elim (checked_add mapping.offset sector_offset) [
        | none ↦ (m, err out_of_range)
        | some p ↦ let (m', r) = hal.erase_sector k ce p m in (m', map_err (λ e. spi e) r)
      ]
    ]
  ]
