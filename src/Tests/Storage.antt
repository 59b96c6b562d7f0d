-- ===== src/Tests/Storage.antt =====
-- Layouts, recovery plans, manifests, the request queue and provisioning at concrete values
-- (app-rot/src/flash/mod.rs, app-rot/src/manifest/mod.rs, app-rot/src/provision/mod.rs).
use mcu_runtime.Base.{◌≡◌, ◌≢◌, refl, ◌↔◌, true, false, some, List, [], ◌∷◌, All, ok, err, arith}
use mcu_runtime.Flash.{
  Slot, Region, LayoutError, Layout, validate, RecoveryPair, RecoveryPlan, validate_plan, new_level,
  zero_level,
}
use mcu_runtime.Flash.Overlap.{IsPartition, validate_iff}
use mcu_runtime.Flash.Recovery.{CanRestore, validate_plan_iff}
use mcu_runtime.Manifest.{
  HashAlgorithm, SignatureAlgorithm, KeyKind, read_only, ProtectedRegion, ImageDescriptor,
  PlatformFirmwareManifest, VerificationRequest,
}
use mcu_runtime.Manifest.Keys.{KeyDescriptor, KeyManifest, AfmDescriptor}
use mcu_runtime.Manifest.Queue.{new, push}
use mcu_runtime.Manifest.Queue.Refined.{Refined, queue-Refined}
use mcu_runtime.Manifest.Queue.Fifo.{Holds}
use mcu_runtime.Manifest.Validation.{AntiRollbackPolicy, validate_manifest, ManifestError}
use mcu_runtime.Manifest.Validation.Sound.{IsSound, validate_manifest_iff}
use mcu_runtime.Provision.{
  ProvisionCommand, ProvisionError, ProvisionState, apply, is_read_only, is_provisioned,
}
use mcu_runtime.Provision.Order.{
  commit_all, IsOrdered, Extends, reached-IsOrdered, apply-Extends, locked_forever,
}

abbrev active : Region
active = record { slot = Slot.active; offset = 0; size = 0x1000 }

abbrev recovery : Region
recovery = record { slot = Slot.recovery; offset = 0x1000; size = 0x1000 }

abbrev layout : Layout
layout = record { regions = active ∷ recovery ∷ [] }

overlap_found :
    validate (record { regions = active ∷ record recovery { offset = 0xfff } ∷ [] })
    ≡ err LayoutError.overlapping_regions
unfolding validate
overlap_found = refl

validate_iff_example : (validate layout ≡ ok tt) ↔ IsPartition (active ∷ recovery ∷ [])
validate_iff_example = validate_iff layout

abbrev pair : RecoveryPair
pair = record { active = active; recovery = recovery }

abbrev plan : RecoveryPlan
plan = record { pairs = pair ∷ [] }

validate_plan_iff_example :
    (validate_plan plan ≡ ok tt) ↔ ((plan.pairs ≢ []) × All CanRestore plan.pairs)
validate_plan_iff_example = validate_plan_iff plan

level_zero : new_level 0 ≡ some zero_level
unfolding new_level
level_zero = refl

abbrev region : ProtectedRegion
region = record { offset = 0; size = 0x1000; permissions = read_only }

abbrev image : ImageDescriptor
image = record {
  offset = 0x100;
  size = 0x200;
  hash = HashAlgorithm.sha384;
  signature = SignatureAlgorithm.ecdsa_p384;
  svn = 2;
}

abbrev manifest : PlatformFirmwareManifest
manifest = record { version = 1; protected_regions = region ∷ []; images = image ∷ [] }

manifest_accepted : validate_manifest manifest ≡ ok tt
unfolding validate_manifest
manifest_accepted = refl

image_outside :
    validate_manifest (record manifest { images = record image { offset = 0xf00 } ∷ [] })
    ≡ err ManifestError.image_outside_protected_region
unfolding validate_manifest
image_outside = refl

validate_manifest_iff_example : (validate_manifest manifest ≡ ok tt) ↔ IsSound manifest
validate_manifest_iff_example = validate_manifest_iff manifest

abbrev policy : AntiRollbackPolicy
policy = record { minimum_svn = 3 }

abbrev request : VerificationRequest
request = record {
  task = record {
    offset = 0x100;
    size = 0x200;
    hash = HashAlgorithm.sha384;
    signature = SignatureAlgorithm.ecdsa_p384;
    svn = 2;
  };
  key_kind = KeyKind.pfm;
  key_index = 0;
}

one-Holds : Holds (push (new 2) request).0 (request ∷ []) 1
unfolding new push
one-Holds = record { filled = refl; counted = refl }

abbrev root_key : KeyDescriptor
root_key = record {
  kind = KeyKind.root;
  index = 0;
  hash = HashAlgorithm.sha384;
  digest_offset = 0x40;
  digest_size = 48;
}

abbrev keys : KeyManifest
keys = record { keys = root_key ∷ record root_key { index = 1 } ∷ [] }

abbrev firmware : AfmDescriptor
firmware = record { offset = 0x80; size = 0; svn = 1; hash = HashAlgorithm.sha256 }

abbrev commands : List ProvisionCommand
commands =
    ProvisionCommand.deploy_manifest ∷ ProvisionCommand.write_root_key
    ∷ ProvisionCommand.deploy_manifest ∷ ProvisionCommand.set_platform_descriptor
    ∷ ProvisionCommand.lock_provisioning ∷ []

reached-IsOrdered_example : IsOrdered (commit_all mcu_runtime.Provision.new commands)
reached-IsOrdered_example = reached-IsOrdered commands

abbrev locked : ProvisionState
locked = record {
  root_key_written = true;
  manifest_deployed = true;
  descriptor_set = true;
  locked = true;
  svn_burned = 1;
}

abbrev keyed : ProvisionState
keyed = record {
  root_key_written = true;
  manifest_deployed = false;
  descriptor_set = false;
  locked = false;
  svn_burned = 1;
}

abbrev deployed : ProvisionState
deployed = record keyed { manifest_deployed = true }

deploys : apply keyed ProvisionCommand.deploy_manifest ≡ ok deployed
unfolding apply
deploys = refl

apply-Extends_example : Extends keyed deployed
apply-Extends_example =
    apply-Extends keyed deployed ProvisionCommand.deploy_manifest (omega arith) deploys

locked_forever_example :
    ((apply locked ProvisionCommand.write_root_key ≡ err ProvisionError.already_locked)
      ↔ (is_read_only ProvisionCommand.write_root_key ≡ false))
    × (commit_all locked commands ≡ locked)
locked_forever_example = locked_forever locked ProvisionCommand.write_root_key commands refl

queue-Refined_example : Refined 2
queue-Refined_example = queue-Refined 2
