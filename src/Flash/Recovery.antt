-- ===== src/Flash/Recovery.antt =====
-- Recovery plans and recovery levels (app-rot/src/flash/mod.rs).
use mcu_runtime.Base.{
  ℕ, zero, suc, ◌+◌, ◌≤◌, ◌<◌, ◌≡◌, ◌≢◌, ◌↔◌, false, not, Option, none, some, List, [], ◌∷◌, All,
  any, ok, arith,
}
use mcu_runtime.Flash.{
  RecoveryPair, RecoveryPlan, validate_plan, is_compatible, RecoveryLevel, new_level, escalate,
  can_escalate,
}

-- The recovery region can take the whole active one, and neither is empty.
abbrev pub CanRestore : RecoveryPair → Type 0
CanRestore p = (0 < p.active.size) × (0 < p.recovery.size) × (p.active.size ≤ p.recovery.size)

none_incompatible :
    (ps : List RecoveryPair) → (any (λ q. not (is_compatible q)) ps ≡ false) ↔ All CanRestore ps
unfolding is_compatible
none_incompatible [] = ground arith
none_incompatible (p ∷ ps) = ground (arith, none_incompatible ps)

-- A plan is accepted exactly when it has a pair and every pair of it can restore its active
-- region.
pub validate_plan_iff :
    (p : RecoveryPlan) → (validate_plan p ≡ ok tt) ↔ ((p.pairs ≢ []) × All CanRestore p.pairs)
unfolding validate_plan
validate_plan_iff p = ground (arith, none_incompatible p.pairs)

-- `k` escalations in a row, each from the level that the one before returned.
unfoldable pub escalate_times : ℕ → RecoveryLevel → Option RecoveryLevel
escalate_times zero l = some l
escalate_times (suc k) l = elim (escalate l) [ none ↦ none | some l' ↦ escalate_times k l' ]

-- From a level that `new` accepts, `k` escalations give what `new` gives at the value raised
-- by `k`: that level, or none past the maximum.
pub escalate_times-new_level :
    (k v : ℕ) (l : RecoveryLevel) → new_level v ≡ some l → escalate_times k l ≡ new_level (v + k)
unfolding escalate_times escalate new_level can_escalate
escalate_times-new_level zero v l h = ground arith
escalate_times-new_level (suc k) v l h =
    ground (arith, escalate_times-new_level k (v + 1) (record { level = l.level + 1 }))
