-- ===== src/Diag/Dram.antt =====
-- The programs that train the memory and test it (app-rot/src/bin/dram_init_bootmcu.rs and
-- sli_init_bootmcu.rs). `loop {}` is no result; the sleep behind the last message is not modelled.
pub mod Tested
use mcu_runtime.Base.{
  ℕ, zero, suc, ◌+◌, Bool, true, false, if◌then◌else◌, List, [], ◌∷◌, none, Result, ok, err,
}
use mcu_runtime.Base.Text.{codes}
use mcu_runtime.Bootmcu.Halt.{Boot, ◌>>=◌, ◌>>◌, pure, gets, modify, call}
use mcu_runtime.Diag.Print.{print_hex}
use mcu_runtime.Diag.Memory.{Ram, add, pattern_test, walking_bit_test}

pub data DeviceId : Type 0 where
  ast2750 ast2700 ast2720 : DeviceId
  unknown : ℕ → DeviceId

pub data HwRev : Type 0 where
  a0 a1 : HwRev
  unknown : ℕ → HwRev

pub data DdrType : Type 0 where
  ddr4 ddr5 : DdrType

pub data DramError : Type 0 where
  phy_init_timeout self_ref_timeout bist_fail no_phy_firmware : DramError

pub data SliError : Type 0 where
  remote_timeout : SliError

-- The calls into the hardware abstraction layer, which are parameters.
pub record Hal (M : Type 0) : Type 0 where
  pub ram : Ram M
  pub init : M → M
  pub new_uart12 : M → M
  pub blocking_write : List ℕ → M → M
  pub silicon_rev : M → DeviceId × HwRev
  pub ddr_type_strap : M → DdrType
  -- `sdrammc::init(DramSize::GB2)`.
  pub sdrammc_init : M → M × Result (Unit {0}) DramError
  pub sli_init_f : M → M
  pub sli_init_r : M → M × Result (Unit {0}) SliError

abbrev pub dram_base : ℕ
dram_base = 0x80000000

abbrev device_name : DeviceId → List ℕ
device_name DeviceId.ast2750 = codes "AST2750"
device_name DeviceId.ast2700 = codes "AST2700"
device_name DeviceId.ast2720 = codes "AST2720"
device_name (DeviceId.unknown _) = codes "Unknown"

abbrev rev_name : HwRev → List ℕ
rev_name HwRev.a0 = codes "A0"
rev_name HwRev.a1 = codes "A1"
rev_name (HwRev.unknown _) = codes "??"

abbrev ddr_name : DdrType → List ℕ
ddr_name DdrType.ddr4 = codes "DDR4"
ddr_name DdrType.ddr5 = codes "DDR5"

abbrev dram_error_name : DramError → List ℕ
dram_error_name DramError.phy_init_timeout = codes "PHY timeout"
dram_error_name DramError.self_ref_timeout = codes "Self-ref timeout"
dram_error_name DramError.bist_fail = codes "BIST fail"
dram_error_name DramError.no_phy_firmware = codes "No PHY FW"

-- `let patterns` of `dram_init` and of `sli_init`.
abbrev pub patterns : List ℕ
patterns =
    0xdeadbeef ∷ 0xcafebabe ∷ 0x12345678 ∷ 0xa5a5a5a5 ∷ 0x5a5a5a5a ∷ 0x0000ffff ∷ 0xffff0000
    ∷ 0x01020304 ∷ []

abbrev pub smoke_patterns : List ℕ
smoke_patterns = 0xdeadbeef ∷ 0xcafebabe ∷ 0xa5a5a5a5 ∷ 0x5a5a5a5a ∷ []

module _ {M : Type 0} (hal : Hal M) where
  unfoldable pub print : List ℕ → Boot M (Unit {0})
  print s = modify (hal.blocking_write s)

  -- A message and `loop {}`.
  unfoldable pub halt : List ℕ → Boot M (Unit {0})
  halt s m = (hal.blocking_write s m, none)

  -- The banner with the device and its revision.
  unfoldable pub banner : List ℕ → Boot M (Unit {0})
  unfolding print
  banner title = do
    modify hal.init
    modify hal.new_uart12
    print title
    (dev, hw) ← gets hal.silicon_rev
    print (codes "Device: ")
    print (device_name dev)
    print (codes " Rev: ")
    print (rev_name hw)
    print (codes "\r\n")

  -- The two arms of the match on the training.
  unfoldable pub trained : Result (Unit {0}) DramError → Boot M (Unit {0})
  unfolding print halt
  trained (ok _) = print (codes "OK\r\n")
  trained (err e) = do print (codes "FAIL: "); print (dram_error_name e); halt (codes "\r\n")

  unfoldable pub training : List ℕ → List ℕ → Boot M (Unit {0})
  unfolding print trained
  training front back = do
    ddr_type ← gets hal.ddr_type_strap
    print front
    print (ddr_name ddr_type)
    print back
    result ← call hal.sdrammc_init
    trained result

  -- A test between its title and its verdict.
  unfoldable pub verdict : Bool → Boot M (Unit {0})
  unfolding print halt
  verdict true = print (codes "PASS\r\n")
  verdict false = halt (codes "FAIL\r\n")

  unfoldable pub test : List ℕ → (M → M × Bool) → Boot M (Unit {0})
  unfolding print verdict
  test title run = do print title; passed ← call run; verdict passed

  -- The loop that prints the first words, for `n` words from `i` on.
  unfoldable pub print_words : ℕ → ℕ → Boot M (Unit {0})
  unfolding print
  print_words i zero = pure tt
  print_words i (suc n) = do
    val ← gets (hal.ram.read_volatile (add dram_base i))
    print (print_hex val)
    print (codes " ")
    print_words (suc i) n

  -- `main` of dram_init.
  unfoldable pub dram_init : Boot M (Unit {0})
  dram_init = do
    banner (codes "\r\n=== DRAM Training ===\r\n")
    training (codes "DDR: ") (codes "\r\nTraining... ")
    test (codes "Pattern test @ 0x80000000... ") (pattern_test hal.ram dram_base patterns)
    test (codes "Walking-bit test (1 KB)... ") (walking_bit_test hal.ram (dram_base + 0x1000) 256)
    test (codes "Pattern test @ 0xC0000000... ")
        (pattern_test hal.ram (dram_base + 0x40000000) patterns)
    print (codes "DRAM[0..3]: ")
    print_words 0 4
    print (codes "\r\n")
    print (codes "\r\n=== DRAM OK ===\r\n")

  -- The match on `sli::init_r`.
  unfoldable pub linked : Result (Unit {0}) SliError → Boot M (Unit {0})
  unfolding print halt
  linked (ok _) = print (codes "OK\r\n")
  linked (err SliError.remote_timeout) = halt (codes "TIMEOUT waiting for SLI0_READY\r\n")

  -- `main` of sli_init.
  unfoldable pub sli_init : Boot M (Unit {0})
  sli_init = do
    banner (codes "\r\n=== SLI + DRAM Init ===\r\n")
    print (codes "SLI init_f... ")
    modify hal.sli_init_f
    print (codes "OK\r\n")
    training (codes "DRAM (") (codes ") training... ")
    print (codes "SLI init_r... ")
    result ← call hal.sli_init_r
    linked result
    test (codes "DRAM R/W test... ") (pattern_test hal.ram dram_base smoke_patterns)
    print (codes "\r\n=== SLI OK ===\r\n")
