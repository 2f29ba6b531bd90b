-- ===== src/Store/Apply.antt =====
-- store/apply.rs: `apply_command`, one handler for each command in the modules below.
pub mod Secrets
pub mod Access
pub mod Upkeep
use hyperion_vault.Prelude.{ℕ}
use hyperion_vault.Store.Redb.{Storage}
use hyperion_vault.Store.Db.{Tx}
use hyperion_vault.Store.Model.{
  Command, create_secret, put_version, update_meta, delete_secret, create_role, set_permissions,
  delete_role, add_token, revoke_token, touch_token, expire_grace_versions, rewrap_version,
  set_kms_rewrap_state, append_audit, restore_database, record_auth_failure,
}
use Secrets
use Access
use Upkeep

unfoldable pub apply_command : (r : Storage) → ℕ → Command → Tx r (Unit {0})
apply_command r node_id (create_secret secret version) = Secrets.create r secret version
apply_command r node_id (put_version name expected version supersede meta) =
    Secrets.put_version r name expected version supersede meta
apply_command r node_id (update_meta name expected meta) = Secrets.update_meta r name expected meta
apply_command r node_id (delete_secret name) = Secrets.delete r name
apply_command r node_id (create_role role) = Access.create_role r role
apply_command r node_id (set_permissions name rules) = Access.set_permissions r name rules
apply_command r node_id (delete_role name) = Access.delete_role r name
apply_command r node_id (add_token token) = Access.add_token r token
apply_command r node_id (revoke_token name at) = Access.revoke_token r name at
apply_command r node_id (touch_token fingerprint at) = Access.touch_token r fingerprint at
apply_command r node_id (expire_grace_versions now) = Upkeep.expire_grace_versions r now
apply_command r node_id (rewrap_version name version kms_key_id wrapped_dek at) =
    Upkeep.rewrap_version r name version kms_key_id wrapped_dek at
apply_command r node_id (set_kms_rewrap_state state) = Upkeep.set_kms_rewrap_state r state
apply_command r node_id (append_audit entry) = Upkeep.append_audit r node_id entry
apply_command r node_id (restore_database backup) = Upkeep.restore_database r backup
apply_command r node_id (record_auth_failure report) = Access.record_auth_failure r report
