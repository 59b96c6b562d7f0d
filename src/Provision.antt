-- ===== src/Provision.antt =====
-- The provisioning state and its commands (app-rot/src/provision/mod.rs).
pub mod Order
use mcu_runtime.Base.{ℕ, Bool, true, false, ◌&&◌, if◌then◌else◌, not, Result, ok, err}
use mcu_runtime.Base.Words.{saturating_add}

pub data ProvisionCommand : Type 0 where
  write_root_key deploy_manifest set_platform_descriptor burn_anti_rollback : ProvisionCommand
  lock_provisioning read_device_id query_status : ProvisionCommand

data ProvisionStatus : Type 0 where
  idle in_progress success failure locked : ProvisionStatus

pub data ProvisionError : Type 0 where
  already_locked missing_prerequisite invalid_state : ProvisionError

pub record ProvisionState : Type 0 where
  pub root_key_written : Bool
  pub manifest_deployed : Bool
  pub descriptor_set : Bool
  pub locked : Bool
  pub svn_burned : ℕ

-- `ProvisionState::new`.
unfoldable pub new : ProvisionState
new = record {
  root_key_written = false;
  manifest_deployed = false;
  descriptor_set = false;
  locked = false;
  svn_burned = 0;
}

unfoldable pub is_provisioned : ProvisionState → Bool
is_provisioned s = s.root_key_written && s.manifest_deployed && s.descriptor_set

-- The `matches!` of the early return.
abbrev pub is_read_only : ProvisionCommand → Bool
is_read_only read_device_id = true
is_read_only query_status = true
is_read_only _ = false

-- The match on the command, on an unlocked state.
unfoldable perform : ProvisionCommand → ProvisionState → Result ProvisionState ProvisionError
unfolding is_provisioned
perform write_root_key s = ok (record s { root_key_written = true })
perform deploy_manifest s =
    if not s.root_key_written
    then err missing_prerequisite
    else ok (record s { manifest_deployed = true })
perform set_platform_descriptor s = ok (record s { descriptor_set = true })
perform burn_anti_rollback s = ok (record s { svn_burned = saturating_add s.svn_burned 1 })
perform lock_provisioning s =
    if not (is_provisioned s) then err missing_prerequisite else ok (record s { locked = true })
perform read_device_id s = ok s
perform query_status s = ok s

unfoldable pub apply : ProvisionState → ProvisionCommand → Result ProvisionState ProvisionError
unfolding perform
apply s c = if is_read_only c then ok s else if s.locked then err already_locked else perform c s
