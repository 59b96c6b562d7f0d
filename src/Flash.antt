-- ===== src/Flash.antt =====
-- Flash regions, layouts and recovery plans (app-rot/src/flash/mod.rs). The arrays `[_; N]` are
-- lists, and `N` is their length.
pub mod Overlap
pub mod Recovery
use mcu_runtime.Base.{
  ℕ, ◌+◌, ◌<◌, Bool, true, false, ◌&&◌, not, if◌then◌else◌, ltb, leb, ◌==◌, Option, none, some,
  List, [], ◌∷◌, any, find, length, Result, ok, err,
}
use mcu_runtime.Base.Words.{checked_add, saturating_add}

pub data Slot : Type 0 where
  active recovery staging state key : Slot

pub record Region : Type 0 where
  pub slot : Slot
  pub offset : ℕ
  pub size : ℕ

-- The derived `PartialEq` of `Slot`.
abbrev pub same_slot : Slot → Slot → Bool
same_slot active active = true
same_slot recovery recovery = true
same_slot staging staging = true
same_slot state state = true
same_slot key key = true
same_slot _ _ = false

unfoldable checked_end : Region → Option ℕ
checked_end r = checked_add r.offset r.size

unfoldable end : Region → ℕ
end r = saturating_add r.offset r.size

-- `Region::contains`: the match on the two ends.
abbrev within : ℕ → ℕ → Option ℕ → Option ℕ → Bool
within start offset (some region_end) (some last) = leb start offset && leb last region_end
within start offset _ _ = false

unfoldable contains : Region → ℕ → ℕ → Bool
unfolding checked_end
contains r offset len = within r.offset offset (checked_end r) (checked_add offset len)

unfoldable is_empty : Region → Bool
is_empty r = r.size == 0

pub data LayoutError : Type 0 where
  empty_region region_overflow overlapping_regions : LayoutError

pub record Layout : Type 0 where
  pub regions : List Region

-- `Layout::find` and `Layout::find_containing`.
unfoldable find_slot : Layout → Slot → Option Region
find_slot l s = find (λ r. same_slot r.slot s) l.regions

unfoldable find_containing : Layout → ℕ → ℕ → Option Region
unfolding contains
find_containing l offset len = find (λ r. contains r offset len) l.regions

-- The inner loop of `validate`: region `a`, which ends at `a_end`, against the regions after it.
unfoldable pub validate_pair : Region → ℕ → List Region → Result (Unit {0}) LayoutError
unfolding checked_end
validate_pair a a_end [] = ok tt
validate_pair a a_end (b ∷ bs) = elim (checked_end b) [
  | none ↦ err region_overflow
  | some b_end ↦
      if ltb a.offset b_end && ltb b.offset a_end
      then err overlapping_regions
      else validate_pair a a_end bs
]

-- The outer loop, on the regions from `i` on.
unfoldable pub validate_from : List Region → Result (Unit {0}) LayoutError
unfolding validate_pair checked_end is_empty
validate_from [] = ok tt
validate_from (a ∷ rest) = if is_empty a then err empty_region else elim (checked_end a) [
  | none ↦ err region_overflow
  | some a_end ↦ elim (validate_pair a a_end rest) [ ok _ ↦ validate_from rest | err e ↦ err e ]
]

unfoldable pub validate : Layout → Result (Unit {0}) LayoutError
unfolding validate_from
validate l = validate_from l.regions

pub record RecoveryPair : Type 0 where
  pub active : Region
  pub recovery : Region

unfoldable pub is_compatible : RecoveryPair → Bool
unfolding is_empty
is_compatible p =
    not (is_empty p.active) && not (is_empty p.recovery) && leb p.active.size p.recovery.size

pub record RecoveryPlan : Type 0 where
  pub pairs : List RecoveryPair

pub data RecoveryPlanError : Type 0 where
  empty_plan incompatible_pair : RecoveryPlanError

-- `RecoveryPlan::validate`.
unfoldable pub validate_plan : RecoveryPlan → Result (Unit {0}) RecoveryPlanError
unfolding is_compatible
validate_plan p =
    if length p.pairs == 0
    then err empty_plan
    else if any (λ q. not (is_compatible q)) p.pairs
    then err incompatible_pair
    else ok tt

-- A `RecoveryLevel` wraps a `u8`.
pub record RecoveryLevel : Type 0 where
  pub level : ℕ

abbrev pub zero_level : RecoveryLevel
zero_level = record { level = 0 }

abbrev pub max_level : RecoveryLevel
max_level = record { level = 2 }

-- `RecoveryLevel::new`.
unfoldable pub new_level : ℕ → Option RecoveryLevel
new_level v = if leb v max_level.level then some (record { level = v }) else none

unfoldable pub can_escalate : RecoveryLevel → Bool
can_escalate l = ltb l.level max_level.level

unfoldable pub escalate : RecoveryLevel → Option RecoveryLevel
unfolding can_escalate
escalate l = if can_escalate l then some (record { level = l.level + 1 }) else none
