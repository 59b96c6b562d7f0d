-- ===== src/Platform/Generic.antt =====
-- The sequencer of the generic DC-SCM platform (app-rot/src/platform/generic.rs). Outputs keep the
-- level they were given; a command to a flash and a wait are steps that leave them.
pub mod Mux
pub mod Sequence
use mcu_runtime.Base.{
  ℕ, ◌+◌, ◌-◌, Bool, true, false, ◌&&◌, if◌then◌else◌, leb, ◌==◌, List, [], ◌∷◌, ◌++◌,
}
use mcu_runtime.Base.Registers.{with_bit}

pub data Controller : Type 0 where
  spi1 spi2 : Controller

pub data Pin : Type 0 where
  flash_power_l2 flash_power_l3 bmc_srst bmc_extrst : Pin

-- The calls that the platform makes; `first_done` clears `first_release`.
pub data Step : Type 0 where
  set_level : Pin → Bool → Step
  set_output_pin : ℕ → Bool → Step
  set_spim_ext_mux : ℕ → Bool → Step
  reset_by_command : Controller → ℕ → Step
  wait_ms : ℕ → Step
  first_done : Step

-- `Ast1060DcscmPlatform` with its outputs, and the SPIM mode control register of the SCU.
pub record Ast1060DcscmPlatform : Type 0 where
  pub sgpo : ℕ → Bool
  pub flash_power_l2 : Bool
  pub flash_power_l3 : Bool
  pub bmc_srst : Bool
  pub bmc_extrst : Bool
  pub first_release : Bool
  pub scu_spim_mode_ctrl : ℕ

abbrev pub sgpo_aux_pwrgd_cpu0 : ℕ
sgpo_aux_pwrgd_cpu0 = 37

abbrev pub sgpo_pltrst_cpu0 : ℕ
sgpo_pltrst_cpu0 = 38

abbrev pub sgpo_aux_pwrgd_cpu1 : ℕ
sgpo_aux_pwrgd_cpu1 = 53

abbrev pub sgpo_pltrst_cpu1 : ℕ
sgpo_pltrst_cpu1 = 54

abbrev pub set_output : ℕ → Bool → (ℕ → Bool) → ℕ → Bool
set_output pin level sgpo n = if n == pin then level else sgpo n

-- The body of `set_spim_ext_mux` on the register's value.
unfoldable pub spim_ext_mux : ℕ → Bool → ℕ → ℕ
spim_ext_mux inst rot_owner value =
    if leb 1 inst && leb inst 4 then with_bit (12 + inst - 1) rot_owner value else value

unfoldable pub exec : Step → Ast1060DcscmPlatform → Ast1060DcscmPlatform
unfolding spim_ext_mux
exec (set_level Pin.flash_power_l2 level) p = record p { flash_power_l2 = level }
exec (set_level Pin.flash_power_l3 level) p = record p { flash_power_l3 = level }
exec (set_level Pin.bmc_srst level) p = record p { bmc_srst = level }
exec (set_level Pin.bmc_extrst level) p = record p { bmc_extrst = level }
exec (set_output_pin pin level) p = record p { sgpo = set_output pin level p.sgpo }
exec (set_spim_ext_mux inst rot_owner) p = record p {
  scu_spim_mode_ctrl = spim_ext_mux inst rot_owner p.scu_spim_mode_ctrl;
}
exec (reset_by_command controller ce) p = p
exec (wait_ms ms) p = p
exec first_done p = record p { first_release = false }

unfoldable pub exec_all : List Step → Ast1060DcscmPlatform → Ast1060DcscmPlatform
unfolding exec
exec_all [] p = p
exec_all (s ∷ steps) p = exec_all steps (exec s p)

-- The platform behind `new`, on a board whose outputs and register are given.
unfoldable pub new : (ℕ → Bool) → ℕ → Ast1060DcscmPlatform
unfolding exec_all
new sgpo scu =
    exec_all
      (set_output_pin sgpo_aux_pwrgd_cpu0 false
        ∷ set_output_pin sgpo_aux_pwrgd_cpu1 false
        ∷ set_output_pin sgpo_pltrst_cpu0 false
        ∷ set_output_pin sgpo_pltrst_cpu1 false
        ∷ [])
      (record {
        sgpo = sgpo;
        flash_power_l2 = true;
        flash_power_l3 = true;
        bmc_srst = false;
        bmc_extrst = false;
        first_release = true;
        scu_spim_mode_ctrl = scu;
      })

abbrev pub hold_steps : List Step
hold_steps =
    set_spim_ext_mux 1 true
    ∷ set_spim_ext_mux 2 true
    ∷ set_spim_ext_mux 3 true
    ∷ set_spim_ext_mux 4 true
    ∷ set_level Pin.flash_power_l2 true
    ∷ set_level Pin.flash_power_l3 true
    ∷ set_level Pin.bmc_extrst false
    ∷ set_level Pin.bmc_srst false
    ∷ set_output_pin sgpo_aux_pwrgd_cpu0 false
    ∷ set_output_pin sgpo_aux_pwrgd_cpu1 false
    ∷ set_output_pin sgpo_pltrst_cpu0 false
    ∷ set_output_pin sgpo_pltrst_cpu1 false
    ∷ []

-- `if self.first_release { ... }`.
abbrev pub first_steps : Bool → List Step
first_steps true = set_level Pin.bmc_srst true ∷ first_done ∷ wait_ms 10 ∷ []
first_steps false = []

-- The steps of `release_bootmcu_from_reset`, for a value of `first_release`.
abbrev pub release_steps : Bool → List Step
release_steps first_release =
    (set_level Pin.flash_power_l2 true
      ∷ set_level Pin.flash_power_l3 true
      ∷ reset_by_command spi1 0
      ∷ reset_by_command spi2 0
      ∷ reset_by_command spi2 1
      ∷ set_spim_ext_mux 1 false
      ∷ set_spim_ext_mux 2 false
      ∷ set_spim_ext_mux 3 false
      ∷ set_spim_ext_mux 4 false
      ∷ wait_ms 10
      ∷ [])
    ++ (first_steps first_release
        ++ (set_level Pin.bmc_extrst true
            ∷ wait_ms 10
            ∷ set_output_pin sgpo_aux_pwrgd_cpu0 true
            ∷ set_output_pin sgpo_aux_pwrgd_cpu1 true
            ∷ wait_ms 10
            ∷ []))

unfoldable pub hold_bootmcu_in_reset : Ast1060DcscmPlatform → Ast1060DcscmPlatform
unfolding exec_all
hold_bootmcu_in_reset p = exec_all hold_steps p

unfoldable pub release_bootmcu_from_reset : Ast1060DcscmPlatform → Ast1060DcscmPlatform
unfolding exec_all
release_bootmcu_from_reset p = exec_all (release_steps p.first_release) p
