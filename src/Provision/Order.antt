-- ===== src/Provision/Order.antt =====
-- The order of provisioning (app-rot/src/provision/mod.rs): which states the commands reach, what
-- is irreversible, and when a command is refused.
use mcu_runtime.Base.{◌≤◌, true, false, ◌≡◌, refl, ◌⊎◌, ◌↔◌, List, [], ◌∷◌, arith, ok, err}
use mcu_runtime.Base.Words.{IsU32}
use mcu_runtime.Provision.{
  ProvisionCommand, deploy_manifest, lock_provisioning, already_locked, missing_prerequisite,
  ProvisionState, new, is_provisioned, is_read_only, apply,
}

-- The caller's commit pattern: a refused command leaves the state as it was.
unfoldable pub commit : ProvisionState → ProvisionCommand → ProvisionState
unfolding apply
commit s c = elim (apply s c) [ ok next ↦ next | err e ↦ s ]

unfoldable pub commit_all : ProvisionState → List ProvisionCommand → ProvisionState
commit_all s [] = s
commit_all s (c ∷ cs) = commit_all (commit s c) cs

-- A deployed manifest rests on a root key, a locked state is completely provisioned, and the
-- counter is a `u32`.
pub record IsOrdered (s : ProvisionState) : Type 0 where
  pub keyed : (s.manifest_deployed ≡ false) ⊎ (s.root_key_written ≡ true)
  pub complete : (s.locked ≡ false) ⊎ (is_provisioned s ≡ true)
  pub counted : IsU32 s.svn_burned

commit-IsOrdered :
    (s : ProvisionState) (c : ProvisionCommand) → IsOrdered s → IsOrdered (commit s c)
unfolding commit is_provisioned
commit-IsOrdered s c h = ground arith

commit_all-IsOrdered :
    (s : ProvisionState) (cs : List ProvisionCommand) → IsOrdered s → IsOrdered (commit_all s cs)
unfolding commit_all
commit_all-IsOrdered s [] h = h
commit_all-IsOrdered s (c ∷ cs) h = commit_all-IsOrdered (commit s c) cs (commit-IsOrdered s c h)

-- Every state that commands reach from the unprovisioned one is ordered.
pub reached-IsOrdered : (cs : List ProvisionCommand) → IsOrdered (commit_all new cs)
unfolding new
reached-IsOrdered cs = commit_all-IsOrdered new cs (ground arith)

-- No field is taken back and the counter never falls.
pub record Extends (s t : ProvisionState) : Type 0 where
  pub root_key : (s.root_key_written ≡ false) ⊎ (t.root_key_written ≡ true)
  pub manifest : (s.manifest_deployed ≡ false) ⊎ (t.manifest_deployed ≡ true)
  pub descriptor : (s.descriptor_set ≡ false) ⊎ (t.descriptor_set ≡ true)
  pub lock : (s.locked ≡ false) ⊎ (t.locked ≡ true)
  pub svn : s.svn_burned ≤ t.svn_burned

-- A command that is accepted takes back no field of the state, and the anti-rollback counter
-- never falls.
pub apply-Extends :
    (s t : ProvisionState) (c : ProvisionCommand)
    → IsU32 s.svn_burned
    → apply s c ≡ ok t
    → Extends s t
unfolding apply
apply-Extends s t c b h = ground arith

locked-commit : (s : ProvisionState) (c : ProvisionCommand) → s.locked ≡ true → commit s c ≡ s
unfolding commit
locked-commit s c l = ground arith

locked-commit_all :
    (s : ProvisionState) (cs : List ProvisionCommand) → s.locked ≡ true → commit_all s cs ≡ s
unfolding commit_all
locked-commit_all s [] l = refl
locked-commit_all s (c ∷ cs) l = rw (locked-commit s c l) (locked-commit_all s cs l)

-- A locked state answers exactly the commands that are not read-only with `already_locked`, and
-- no list of commands changes it.
pub locked_forever :
    (s : ProvisionState) (c : ProvisionCommand) (cs : List ProvisionCommand)
    → s.locked ≡ true
    → ((apply s c ≡ err already_locked) ↔ (is_read_only c ≡ false)) × (commit_all s cs ≡ s)
unfolding apply
locked_forever s c cs l = (ground arith, locked-commit_all s cs l)

-- A command is refused for a missing prerequisite exactly when it deploys a manifest before the
-- root key is written, or locks an incomplete state, and the state is not locked.
pub missing_prerequisite_iff :
    (s : ProvisionState) (c : ProvisionCommand)
    → (apply s c ≡ err missing_prerequisite) ↔ (
        (s.locked ≡ false)
        × (((c ≡ deploy_manifest) × (s.root_key_written ≡ false))
            ⊎ ((c ≡ lock_provisioning) × (is_provisioned s ≡ false))))
unfolding apply is_provisioned
missing_prerequisite_iff s c = ground arith
