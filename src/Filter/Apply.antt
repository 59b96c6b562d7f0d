-- ===== src/Filter/Apply.antt =====
-- Applying a filter policy to the monitors of the AST1060 (app-rot/src/filter.rs). The calls of the
-- monitor's driver, and the writes to the register of the SCU, are the result, in their order.
pub mod Calls
pub mod Armed
use mcu_runtime.Base.{
  ℕ, zero, suc, ◌+◌, ◌-◌, Bool, true, false, ◌&&◌, if◌then◌else◌, leb, ◌==◌, List, [], ◌∷◌, ◌++◌,
}
use mcu_runtime.Base.Registers.{with_bit}
use mcu_runtime.Filter.{SpiFilterPolicy, is_bypass}

pub record CmdEntry : Type 0 where
  pub opcode : ℕ
  pub addr_bytes : ℕ
  pub addr_width : ℕ
  pub data_width : ℕ
  pub dummy_cycles : ℕ
  pub erase_size : ℕ
  pub is_read : Bool
  pub is_write : Bool
  pub is_mem : Bool

pub data MonitorCall : Type 0 where
  reset clear_irq_status clear_command_table select_write_disable_table : MonitorCall
  set_push_pull set_filter_enable : Bool → MonitorCall
  set_passthrough : Bool → Bool → MonitorCall
  allow_command : ℕ → CmdEntry → MonitorCall
  set_address_table : ℕ → ℕ → MonitorCall
  set_irq_enable : Bool → Bool → Bool → MonitorCall

-- A call of the monitor `inst`, or a value written to the SCU.
pub data Call : Type 0 where
  monitor : ℕ → MonitorCall → Call
  scu_write : ℕ → Call

unfoldable pub cmd : ℕ → ℕ → Bool → Bool → Bool → CmdEntry
cmd opcode addr_bytes is_read is_write is_mem = record {
  opcode = opcode;
  addr_bytes = addr_bytes;
  addr_width = if addr_bytes == 0 then 0 else 1;
  data_width = 1;
  dummy_cycles = 0;
  erase_size = 0;
  is_read = is_read;
  is_write = is_write;
  is_mem = is_mem;
}

unfoldable pub erase_cmd : ℕ → ℕ → CmdEntry
erase_cmd opcode erase_size = record {
  opcode = opcode;
  addr_bytes = if opcode == 0xc7 then 0 else 3;
  addr_width = if opcode == 0xc7 then 0 else 1;
  data_width = 0;
  dummy_cycles = 0;
  erase_size = erase_size;
  is_read = false;
  is_write = true;
  is_mem = true;
}

-- The arguments of `allow` in `program_common_commands`.
abbrev pub common_commands : List CmdEntry
common_commands =
    cmd 0x03 3 true false true
    ∷ cmd 0x0b 3 true false true
    ∷ cmd 0x3b 3 true false true
    ∷ cmd 0x6b 3 true false true
    ∷ cmd 0xbb 3 true false true
    ∷ cmd 0xeb 3 true false true
    ∷ cmd 0x9f 0 true false false
    ∷ cmd 0x05 0 true false false
    ∷ cmd 0x35 0 true false false
    ∷ cmd 0x06 0 false true false
    ∷ cmd 0x04 0 false true false
    ∷ cmd 0x02 3 false true true
    ∷ erase_cmd 0x20 1
    ∷ erase_cmd 0x52 3
    ∷ erase_cmd 0xd8 5
    ∷ erase_cmd 0xc7 7
    ∷ []

-- `allow`, for each of the entries, from `slot` on.
unfoldable pub allow : ℕ → List CmdEntry → List MonitorCall
allow slot [] = []
allow slot (entry ∷ entries) = allow_command slot entry ∷ allow (slot + 1) entries

unfoldable pub program_common_commands : List MonitorCall
unfolding allow
program_common_commands = clear_command_table ∷ allow 0 common_commands

-- The loop over the table of the policy.
unfoldable pub set_tables : ℕ → List ℕ → List MonitorCall
set_tables entry [] = []
set_tables entry (regions ∷ table) = set_address_table entry regions ∷ set_tables (entry + 1) table

-- The calls of a monitor behind its interrupt's clearing.
unfoldable pub filter_calls : SpiFilterPolicy → List MonitorCall
unfolding program_common_commands set_tables is_bypass
filter_calls policy =
    if is_bypass policy
    then set_filter_enable false ∷ []
    else program_common_commands
      ++ (select_write_disable_table ∷ set_tables 0 policy.write_disable)
      ++ (set_irq_enable true true true ∷ set_filter_enable true ∷ [])

-- `set_scu_spim_bit` on the register's value.
unfoldable pub set_scu_spim_bit : ℕ → ℕ → Bool → ℕ → ℕ
set_scu_spim_bit inst base_bit enable value =
    if leb 1 inst && leb inst 4 then with_bit (base_bit + inst - 1) enable value else value

unfoldable pub calls_of_all : ℕ → List MonitorCall → List Call
calls_of_all inst [] = []
calls_of_all inst (c ∷ calls) = monitor inst c ∷ calls_of_all inst calls

-- The body of the loop over the instances.
unfoldable pub apply_instance : SpiFilterPolicy → ℕ → ℕ → ℕ × List Call
unfolding set_scu_spim_bit filter_calls calls_of_all
apply_instance policy inst scu =
    let scu1 = set_scu_spim_bit inst 4 true scu in
    let scu2 = set_scu_spim_bit inst 8 true scu1 in
    (
      scu2,
      monitor inst reset
          ∷ scu_write scu1
          ∷ scu_write scu2
          ∷ calls_of_all inst (
              set_push_pull true
              ∷ set_passthrough true true
              ∷ clear_irq_status
              ∷ filter_calls policy),
    )

abbrev pub apply_instances : List ℕ → SpiFilterPolicy → ℕ → ℕ × List Call
apply_instances [] policy scu = (scu, [])
apply_instances (inst ∷ insts) policy scu =
    let (scu', calls) = apply_instance policy inst scu in
    let (scu'', rest) = apply_instances insts policy scu' in (scu'', calls ++ rest)

unfoldable pub apply_ast1060_spi_policy : SpiFilterPolicy → ℕ → ℕ × List Call
unfolding apply_instance
apply_ast1060_spi_policy policy scu = apply_instances (1 ∷ 2 ∷ 3 ∷ 4 ∷ []) policy scu
