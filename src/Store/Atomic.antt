-- ===== src/Store/Atomic.antt =====
-- store/apply.rs: the tables beside an error, for each command.
use hyperion_vault.Prelude.{ℕ, ◌≡◌, ◌≢◌, ◌⊎◌, inl, inr, List, Option, Bytes, ℤ, arith}
use hyperion_vault.Core.Rbac.{Rule}
use hyperion_vault.Store.Model.{
  Command, create_secret, put_version, update_meta, delete_secret, create_role, set_permissions,
  delete_role, add_token, revoke_token, touch_token, expire_grace_versions, rewrap_version,
  set_kms_rewrap_state, append_audit, restore_database, record_auth_failure, SecretRecord,
  VersionRecord, MetaUpdate, StoreError, internal, err, RoleRecord, TokenRecord, BackupData,
  FailureReport, KmsRewrapState, AuditEntry,
}
use hyperion_vault.Store.Redb.{Storage}
use hyperion_vault.Store.Db.{Db, Tx}
use hyperion_vault.Store.Apply.{apply_command}
use hyperion_vault.Store.Apply.Secrets
use hyperion_vault.Store.Apply.Access
use hyperion_vault.Store.Apply.Upkeep

-- a step that fails otherwise than by an internal error leaves the tables alone
abbrev Refuses : {r : Storage} → Tx r (Unit {0}) → Type 0
Refuses {r} m = (db : Db r) (e : StoreError) → (m db).0 ≡ err e → (e ≡ internal) ⊎ ((m db).1 ≡ db)

module _ (r : Storage) where
  create-Refuses : (s : SecretRecord) (v : VersionRecord) → Refuses (Secrets.create r s v)
  unfolding Secrets.create
  create-Refuses s v db e h = ground arith

  put_version-Refuses :
      (n : Bytes) (x : ℤ) (v : VersionRecord) (s : Option ℤ) (m : MetaUpdate)
      → Refuses (Secrets.put_version r n x v s m)
  unfolding Secrets.put_version
  put_version-Refuses n x v s m db e h = ground arith

  update_meta-Refuses : (n : Bytes) (x : ℤ) (m : MetaUpdate) → Refuses (Secrets.update_meta r n x m)
  unfolding Secrets.update_meta
  update_meta-Refuses n x m db e h = ground arith

  delete-Refuses : (n : Bytes) → Refuses (Secrets.delete r n)
  unfolding Secrets.delete
  delete-Refuses n db e h = ground arith

  create_role-Refuses : (role : RoleRecord) → Refuses (Access.create_role r role)
  unfolding Access.create_role
  create_role-Refuses role db e h = ground arith

  set_permissions-Refuses :
      (n : Bytes) (rules : List Rule) → Refuses (Access.set_permissions r n rules)
  unfolding Access.set_permissions
  set_permissions-Refuses n rules db e h = ground arith

  delete_role-Refuses : (n : Bytes) → Refuses (Access.delete_role r n)
  unfolding Access.delete_role
  delete_role-Refuses n db e h = ground arith

  add_token-Refuses : (t : TokenRecord) → Refuses (Access.add_token r t)
  unfolding Access.add_token
  add_token-Refuses t db e h = ground arith

  revoke_token-Refuses : (n : Bytes) (at : ℤ) → Refuses (Access.revoke_token r n at)
  unfolding Access.revoke_token
  revoke_token-Refuses n at db e h = ground arith

  touch_token-Refuses : (f : Bytes) (at : ℤ) → Refuses (Access.touch_token r f at)
  unfolding Access.touch_token
  touch_token-Refuses f at db e h = ground arith

  record_auth_failure-Refuses : (f : FailureReport) → Refuses (Access.record_auth_failure r f)
  unfolding Access.record_auth_failure
  record_auth_failure-Refuses f db e h = ground arith

  expire-Refuses : (now : ℤ) → Refuses (Upkeep.expire_grace_versions r now)
  unfolding Upkeep.expire_grace_versions
  expire-Refuses now db e h = ground arith

  rewrap-Refuses :
      (n : Bytes) (v : ℤ) (k d : Bytes) (at : ℤ) → Refuses (Upkeep.rewrap_version r n v k d at)
  unfolding Upkeep.rewrap_version
  rewrap-Refuses n v k d at db e h = ground arith

  set_state-Refuses : (s : KmsRewrapState) → Refuses (Upkeep.set_kms_rewrap_state r s)
  unfolding Upkeep.set_kms_rewrap_state
  set_state-Refuses s db e h = ground arith

  append_audit-Refuses :
      (node : ℕ) (entry : AuditEntry) → Refuses (Upkeep.append_audit r node entry)
  unfolding Upkeep.append_audit
  append_audit-Refuses node entry db e h = ground arith

  restore-Refuses : (b : BackupData) → Refuses (Upkeep.restore_database r b)
  unfolding Upkeep.restore_database
  restore-Refuses b db e h = ground arith

  apply_command-Refuses : (node_id : ℕ) (c : Command) → Refuses (apply_command r node_id c)
  unfolding apply_command
  apply_command-Refuses node_id (create_secret s v) = create-Refuses s v
  apply_command-Refuses node_id (put_version n x v s m) = put_version-Refuses n x v s m
  apply_command-Refuses node_id (update_meta n x m) = update_meta-Refuses n x m
  apply_command-Refuses node_id (delete_secret n) = delete-Refuses n
  apply_command-Refuses node_id (create_role role) = create_role-Refuses role
  apply_command-Refuses node_id (set_permissions n rules) = set_permissions-Refuses n rules
  apply_command-Refuses node_id (delete_role n) = delete_role-Refuses n
  apply_command-Refuses node_id (add_token t) = add_token-Refuses t
  apply_command-Refuses node_id (revoke_token n at) = revoke_token-Refuses n at
  apply_command-Refuses node_id (touch_token f at) = touch_token-Refuses f at
  apply_command-Refuses node_id (expire_grace_versions now) = expire-Refuses now
  apply_command-Refuses node_id (rewrap_version n v k d at) = rewrap-Refuses n v k d at
  apply_command-Refuses node_id (set_kms_rewrap_state s) = set_state-Refuses s
  apply_command-Refuses node_id (append_audit entry) = append_audit-Refuses node_id entry
  apply_command-Refuses node_id (restore_database b) = restore-Refuses b
  apply_command-Refuses node_id (record_auth_failure f) = record_auth_failure-Refuses f

  -- Whatever the command, if it fails with another error than an internal one, the tables are as
  -- they were before it.
  pub apply_command-refused_unchanged :
      (node_id : ℕ) (c : Command) (db : Db r) (e : StoreError)
      → (apply_command r node_id c db).0 ≡ err e
      → e ≢ internal
      → (apply_command r node_id c db).1 ≡ db
  apply_command-refused_unchanged node_id c db e h other =
      elim (apply_command-Refuses node_id c db e h) [
        | inl same ↦ absurd (other same)
        | inr kept ↦ kept
      ]
