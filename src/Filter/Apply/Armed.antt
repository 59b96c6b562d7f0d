-- ===== src/Filter/Apply/Armed.antt =====
-- What the monitors hold when their filter is enabled (app-rot/src/filter.rs).
use mcu_runtime.Base.{
  ℕ, ◌+◌, ◌-◌, ◌/◌, ◌%◌, ◌≤◌, ◌<◌, ◌≡◌, ◌≢◌, refl, ap, ◌∙◌, ◌↔◌, ◌⊎◌, inl, inr, true, false,
  if◌then◌else◌, leb, ◌&&◌, ◌==◌, any, some, List, [], ◌∷◌, ◌++◌, length, get_or, arith,
}
use mcu_runtime.Base.Digits.{bit}
use mcu_runtime.Base.Registers.{is_listed, with_bits-bit}
use native.Mathlib.Decide.{ℕ_discrete}
use mcu_runtime.Manifest.{PlatformFirmwareManifest}
use mcu_runtime.Filter.{SpiFilterPolicy, is_bypass, from_manifest}
use mcu_runtime.Filter.Pages.{IsProtected, from_manifest_iff, length-from_manifest}
use mcu_runtime.Filter.Apply.Calls.{
  calls_of, switches, last_word, calls_of-append, calls_of-same, calls_of-other, last_word-table,
  unswitched,
}
use mcu_runtime.Filter.Apply.{
  MonitorCall, set_filter_enable, set_push_pull, set_passthrough, clear_irq_status, reset,
  select_write_disable_table, set_address_table, set_irq_enable, program_common_commands, allow,
  set_tables, filter_calls, set_scu_spim_bit, calls_of_all, apply_instance, apply_instances,
  apply_ast1060_spi_policy,
}

-- What a monitor receives up to the enabling of its filter.
abbrev front_calls : List ℕ → List MonitorCall
front_calls table =
    reset
      ∷ set_push_pull true
      ∷ set_passthrough true true
      ∷ clear_irq_status
      ∷ program_common_commands
    ++ (select_write_disable_table ∷ set_tables 0 table ++ (set_irq_enable true true true ∷ []))

front-unswitched : (table : List ℕ) → any switches (front_calls table) ≡ false
unfolding program_common_commands allow
front-unswitched table = unswitched 0 table

front-word :
    (entry : ℕ) (table : List ℕ)
    → entry < length table
    → last_word entry (front_calls table) ≡ some (get_or table entry 0)
unfolding program_common_commands allow
front-word entry table h =
    let e : entry - 0 ≡ entry = omega arith in
    last_word-table entry 0 table (omega arith) (omega arith) ∙ rw e refl

instance_calls : SpiFilterPolicy → List MonitorCall
instance_calls policy =
    reset ∷ set_push_pull true ∷ set_passthrough true true ∷ clear_irq_status ∷ filter_calls policy

instance-same :
    (policy : SpiFilterPolicy) (inst scu : ℕ)
    → calls_of inst (apply_instance policy inst scu).1 ≡ instance_calls policy
unfolding apply_instance instance_calls calls_of_all
instance-same policy inst scu = calls_of-same inst (
    reset ∷ set_push_pull true ∷ set_passthrough true true ∷ clear_irq_status ∷ filter_calls policy)

instance-other :
    (policy : SpiFilterPolicy) (inst i scu : ℕ)
    → inst ≢ i
    → calls_of inst (apply_instance policy i scu).1 ≡ []
unfolding apply_instance instance_calls calls_of_all
instance-other policy inst i scu d =
    calls_of-other inst i
      (reset
        ∷ set_push_pull true
        ∷ set_passthrough true true
        ∷ clear_irq_status
        ∷ filter_calls policy)
      d

-- The calls of one monitor, for a list of instances.
picked : SpiFilterPolicy → ℕ → List ℕ → List MonitorCall
picked policy inst [] = []
picked policy inst (i ∷ insts) =
    let rest = picked policy inst insts in if inst == i then instance_calls policy ++ rest else rest

instances-picked :
    (insts : List ℕ) (policy : SpiFilterPolicy) (inst scu : ℕ)
    → calls_of inst (apply_instances insts policy scu).1 ≡ picked policy inst insts
unfolding picked
instances-picked [] policy inst scu = refl
instances-picked (i ∷ insts) policy inst scu =
    let (scu', calls) = apply_instance policy i scu in
    let rest = instances-picked insts policy inst scu' in
    calls_of-append inst calls (apply_instances insts policy scu').1 ∙ elim (ℕ_discrete inst i) [
      | yes e ↦
          let here : (inst == i) ≡ true = ground arith in
          let same : calls_of inst calls ≡ instance_calls policy =
            rw e (instance-same policy i scu) in
          rw here (rw same (rw rest refl))
      | no d ↦
          let other : (inst == i) ≡ false = ground arith in
          rw other (rw (instance-other policy inst i scu d) rest)
    ]

append-nil : (cs : List MonitorCall) → cs ++ [] ≡ cs
append-nil [] = refl
append-nil (c ∷ cs) = ap (λ (r : List MonitorCall). c ∷ r) (append-nil cs)

one_to_four : (n : ℕ) → 1 ≤ n → n ≤ 4 → (n ≡ 1) ⊎ ((n ≡ 2) ⊎ ((n ≡ 3) ⊎ (n ≡ 4)))
one_to_four n l u = ground arith

picked-once :
    (policy : SpiFilterPolicy) (inst : ℕ)
    → 1 ≤ inst
    → inst ≤ 4
    → picked policy inst (1 ∷ 2 ∷ 3 ∷ 4 ∷ []) ≡ instance_calls policy
unfolding picked
picked-once policy inst l u =
    let once = append-nil (instance_calls policy) in
    elim (one_to_four inst l u) [
      | inl e ↦ rw e once
      | inr (inl e) ↦ rw e once
      | inr (inr (inl e)) ↦ rw e once
      | inr (inr (inr e)) ↦ rw e once
    ]

enabled_last :
    (first : ℕ) (table : List ℕ)
    → set_tables first table ++ (set_irq_enable true true true ∷ set_filter_enable true ∷ [])
      ≡ (set_tables first table ++ (set_irq_enable true true true ∷ []))
        ++ (set_filter_enable true ∷ [])
unfolding set_tables
enabled_last first [] = refl
enabled_last first (w ∷ table) =
    ap (λ (r : List MonitorCall). set_address_table first w ∷ r) (enabled_last (first + 1) table)

-- A policy from a manifest is not the bypass.
armed-front :
    (m : PlatformFirmwareManifest)
    → instance_calls (from_manifest m)
      ≡ front_calls (from_manifest m).write_disable ++ (set_filter_enable true ∷ [])
unfolding instance_calls filter_calls program_common_commands allow is_bypass from_manifest
armed-front m =
    ap
      (λ (back : List MonitorCall).
        reset
          ∷ set_push_pull true
          ∷ set_passthrough true true
          ∷ clear_irq_status
          ∷ program_common_commands
        ++ (select_write_disable_table ∷ back))
      (enabled_last 0 (from_manifest m).write_disable)

-- A policy that is made from a manifest and applied to the four monitors: the last call that each
-- monitor receives enables its filter, and no call before it enables or disables it; by then the
-- word of each page has been written, in which the page's bit is set exactly when a region of the
-- manifest that may not be written reaches into the page.
pub applied_armed :
    (m : PlatformFirmwareManifest) (inst scu page : ℕ)
    → 1 ≤ inst
    → inst ≤ 4
    → page < 512
    → (front : List MonitorCall) × (word : ℕ) × (calls_of inst
          (apply_ast1060_spi_policy (from_manifest m) scu).1
        ≡ front ++ (set_filter_enable true ∷ []))
      × (any switches front ≡ false)
      × (last_word (page / 32) front ≡ some word)
      × ((bit (page % 32) word ≡ 1) ↔ IsProtected page m.protected_regions)
unfolding apply_ast1060_spi_policy
applied_armed m inst scu page l u h =
    let table = (from_manifest m).write_disable in
    let size = length-from_manifest m in
    (
      front_calls table,
      get_or table (page / 32) 0,
      instances-picked (1 ∷ 2 ∷ 3 ∷ 4 ∷ []) (from_manifest m) inst scu
          ∙ picked-once (from_manifest m) inst l u
          ∙ armed-front m,
      front-unswitched table,
      front-word (page / 32) table (omega arith),
      from_manifest_iff m page h,
    )

routed : (k : ℕ) → is_listed k (4 ∷ 8 ∷ 5 ∷ 9 ∷ 6 ∷ 10 ∷ 7 ∷ 11 ∷ []) ≡ (leb 4 k && leb k 11)
routed k = ground arith

-- Applying any policy, the bypass too, sets the bits 4 to 11 of the mode control register of the
-- SCU, which route the four flashes through their monitors, and leaves its other bits.
pub applied_scu :
    (policy : SpiFilterPolicy) (scu k : ℕ)
    → k < 32
    → bit k (apply_ast1060_spi_policy policy scu).0 ≡ (if leb 4 k && leb k 11 then 1 else bit k scu)
unfolding apply_ast1060_spi_policy apply_instance set_scu_spim_bit
applied_scu policy scu k h =
    with_bits-bit k (4 ∷ 8 ∷ 5 ∷ 9 ∷ 6 ∷ 10 ∷ 7 ∷ 11 ∷ []) scu true h refl ∙ rw (routed k) refl
