-- ===== src/Bootmcu/Load.antt =====
-- Loading a payload from flash and comparing it (app-rot/src/bin/rot_ast2700_bootmcu.rs). Memory and
-- the transfers into it are parameters; a transfer returns the memory that it leaves.
pub mod Compared
use mcu_runtime.Base.{
  ℕ, zero, suc, ◌+◌, ◌-◌, ◌*◌, Bool, true, false, ◌&&◌, ◌||◌, not, if◌then◌else◌, leb, ◌==◌,
}

-- `rd32`, `ast2700_fmc_enable_ce0_4byte_addr`, `ast2700_fmc_dma_read_sync`, `load_raw`, and eMMC
-- initialisation with the copy that follows it.
pub record Bus (M : Type 0) : Type 0 where
  pub rd32 : M → ℕ → ℕ
  pub enable_4byte_addr : M → M
  pub dma_read : ℕ → ℕ → ℕ → M → M × Bool
  pub load_raw : ℕ → ℕ → ℕ → M → M
  pub emmc_copy : ℕ → ℕ → ℕ → M → M × Bool

pub data BootMode : Type 0 where
  emmc nor_flash other : BootMode

abbrev pub spi_base : ℕ
spi_base = 0x20000000

abbrev pub payload_load_attempts : ℕ
payload_load_attempts = 3

-- The first loop of `verify_payload`: `ok &= s == d` and `non_blank |= ...`, from word `i` on.
unfoldable pub head_words : ℕ → (ℕ → ℕ) → ℕ → ℕ → ℕ → Bool → Bool → Bool × Bool
head_words zero rd src dst i ok non_blank = (ok, non_blank)
head_words (suc n) rd src dst i ok non_blank =
    let s = rd (src + i * 4) in
    head_words n rd src dst (i + 1) (ok && s == rd (dst + i * 4))
      (non_blank || (not (s == 0) && not (s == 0xffffffff)))

-- The second loop, on the last words.
unfoldable pub tail_words : ℕ → (ℕ → ℕ) → ℕ → ℕ → ℕ → Bool → Bool
tail_words zero rd src dst i ok = ok
tail_words (suc n) rd src dst i ok =
    tail_words n rd src dst (i + 1) (ok && rd (src + i * 4) == rd (dst + i * 4))

module _ {M : Type 0} (b : Bus M) where
  unfoldable pub verify_payload : ℕ → ℕ → ℕ → M → Bool
  unfolding head_words tail_words
  verify_payload flash_offset dst len m =
      let rd = b.rd32 m in
      let src = spi_base + flash_offset in
      let (ok, non_blank) = head_words 4 rd src dst 0 true false in
      let tail = len - 16 in
      (if leb 16 len then tail_words 4 rd (src + tail) (dst + tail) 0 ok else ok) && non_blank

  -- The end of a round: the copy by words, and its comparison.
  unfoldable pub copy_words : ℕ → ℕ → ℕ → M → M × Bool
  unfolding verify_payload
  copy_words flash_offset dst len m =
      let m' = b.load_raw flash_offset dst len m in (m', verify_payload flash_offset dst len m')

  -- The loop of `load_payload`, for `n` rounds.
  unfoldable pub load_rounds : ℕ → ℕ → ℕ → ℕ → M → M × Bool
  unfolding verify_payload copy_words
  load_rounds zero flash_offset dst len m = (m, false)
  load_rounds (suc n) flash_offset dst len m =
      let (m1, read) = b.dma_read flash_offset dst len (b.enable_4byte_addr m) in
      let (m2, copied) = copy_words flash_offset dst len m1 in
      let rest = load_rounds n flash_offset dst len m2 in
      if read && verify_payload flash_offset dst len m1
      then (m1, true)
      else if copied
      then (m2, true)
      else rest

  unfoldable pub load_payload : ℕ → ℕ → ℕ → M → M × Bool
  unfolding load_rounds
  load_payload flash_offset dst len m = load_rounds payload_load_attempts flash_offset dst len m

  -- The loop of `load_payload_word_copy_first`.
  unfoldable pub copy_rounds : ℕ → ℕ → ℕ → ℕ → M → M × Bool
  unfolding copy_words
  copy_rounds zero flash_offset dst len m = (m, false)
  copy_rounds (suc n) flash_offset dst len m =
      let (m1, copied) = copy_words flash_offset dst len (b.enable_4byte_addr m) in
      let rest = copy_rounds n flash_offset dst len m1 in if copied then (m1, true) else rest

  unfoldable pub load_payload_word_copy_first : ℕ → ℕ → ℕ → M → M × Bool
  unfolding copy_rounds
  load_payload_word_copy_first flash_offset dst len m =
      copy_rounds payload_load_attempts flash_offset dst len m

  unfoldable pub load_payload_from_boot_media : BootMode → ℕ → ℕ → ℕ → M → M × Bool
  unfolding load_payload
  load_payload_from_boot_media emmc flash_offset dst len m = b.emmc_copy flash_offset dst len m
  load_payload_from_boot_media nor_flash flash_offset dst len m =
      load_payload flash_offset dst len m
  load_payload_from_boot_media other flash_offset dst len m = (m, false)
