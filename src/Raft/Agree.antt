-- ===== src/Raft/Agree.antt =====
-- raft/store.rs and store/apply.rs: replicas that apply the same entries. The tables of lockouts and of
-- the audit log belong to a node and are not replicated.
use hyperion_vault.Prelude.{
  ℕ, ◌≡◌, refl, sym, ap, ◌∙◌, inl, inr, List, false, Option, Bytes, ℤ, arith, ◌==◌, Bool-cases,
  Option-cases,
}
use hyperion_vault.Core.Rbac.{Rule}
use hyperion_vault.Store.Model.{
  Command, create_secret, put_version, update_meta, delete_secret, create_role, set_permissions,
  delete_role, add_token, revoke_token, touch_token, expire_grace_versions, rewrap_version,
  set_kms_rewrap_state, append_audit, restore_database, record_auth_failure, SecretRecord,
  VersionRecord, MetaUpdate, StoreResult, RoleRecord, TokenRecord, BackupData, KmsRewrapState,
  is_local,
}
use hyperion_vault.Store.Redb.{Storage}
use hyperion_vault.Store.Db.{Db, Tx}
use hyperion_vault.Store.Backup.{backup_version, check_secret_rows, replace_tables}
use hyperion_vault.Store.Apply.{apply_command}
use hyperion_vault.Store.Apply.Secrets
use hyperion_vault.Store.Apply.Access
use hyperion_vault.Store.Apply.Upkeep

module _ (r : Storage) where
  -- the tables of a node with another node's lockouts and audit log
  abbrev pub with_local : Db r → Db r → Db r
  with_local own db = record db { lockouts = own.lockouts; audit = own.audit }

  -- a step that neither reads nor writes the tables of a node
  abbrev Shared : Tx r (Unit {0}) → Type 0
  Shared m = (own db : Db r) → m (with_local own db) ≡ ((m db).0, with_local own (m db).1)

  create-Shared : (s : SecretRecord) (v : VersionRecord) → Shared (Secrets.create r s v)
  unfolding Secrets.create
  create-Shared s v own db = ground arith

  put_version-Shared :
      (n : Bytes) (x : ℤ) (v : VersionRecord) (s : Option ℤ) (m : MetaUpdate)
      → Shared (Secrets.put_version r n x v s m)
  unfolding Secrets.put_version
  put_version-Shared n x v s m own db = ground arith

  delete-Shared : (n : Bytes) → Shared (Secrets.delete r n)
  unfolding Secrets.delete
  delete-Shared n own db = ground arith

  update_meta-Shared : (n : Bytes) (x : ℤ) (m : MetaUpdate) → Shared (Secrets.update_meta r n x m)
  unfolding Secrets.update_meta
  update_meta-Shared n x m own db = ground arith

  create_role-Shared : (role : RoleRecord) → Shared (Access.create_role r role)
  unfolding Access.create_role
  create_role-Shared role own db = ground arith

  set_permissions-Shared :
      (n : Bytes) (rules : List Rule) → Shared (Access.set_permissions r n rules)
  unfolding Access.set_permissions
  set_permissions-Shared n rules own db = ground arith

  delete_role-Shared : (n : Bytes) → Shared (Access.delete_role r n)
  unfolding Access.delete_role
  delete_role-Shared n own db = ground arith

  add_token-Shared : (t : TokenRecord) → Shared (Access.add_token r t)
  unfolding Access.add_token
  add_token-Shared t own db = ground arith

  revoke_token-Shared : (n : Bytes) (at : ℤ) → Shared (Access.revoke_token r n at)
  unfolding Access.revoke_token
  revoke_token-Shared n at own db = ground arith

  touch_token-Shared : (f : Bytes) (at : ℤ) → Shared (Access.touch_token r f at)
  unfolding Access.touch_token
  touch_token-Shared f at own db = ground arith

  expire-Shared : (now : ℤ) → Shared (Upkeep.expire_grace_versions r now)
  unfolding Upkeep.expire_grace_versions
  expire-Shared now own db = ground arith

  rewrap-Shared :
      (n : Bytes) (v : ℤ) (k d : Bytes) (at : ℤ) → Shared (Upkeep.rewrap_version r n v k d at)
  unfolding Upkeep.rewrap_version
  rewrap-Shared n v k d at own db = ground arith

  set_state-Shared : (s : KmsRewrapState) → Shared (Upkeep.set_kms_rewrap_state r s)
  unfolding Upkeep.set_kms_rewrap_state
  set_state-Shared s own db = ground arith

  -- two nodes have equal replicated tables
  abbrev pub Alike : Db r → Db r → Type 0
  Alike a b = with_local b a ≡ b

  -- two runs on alike nodes give one result and alike nodes
  abbrev pub SameRun : StoreResult (Unit {0}) × Db r → StoreResult (Unit {0}) × Db r → Type 0
  SameRun (result, a) (other, b) = (result ≡ other) × Alike a b

  run_Shared : (m : Tx r (Unit {0})) → Shared m → (a b : Db r) → Alike a b → SameRun (m a) (m b)
  run_Shared m shared a b alike =
      let run : m b ≡ ((m a).0, with_local b (m a).1) = ap m (sym alike) ∙ shared b a in
      rw run (refl, refl)

  restore_with_local :
      (backup : BackupData) (own a : Db r)
      → SameRun
          (Upkeep.restore_database r backup a)
          (Upkeep.restore_database r backup (with_local own a))
  unfolding Upkeep.restore_database replace_tables
  restore_with_local backup own a = elim (Bool-cases (backup.version == backup_version)) [
    | inr other ↦ ground arith
    | inl same ↦ elim (Option-cases (check_secret_rows backup)) [
      | inl passes ↦ ground arith
      | inr (e, refused) ↦ ground arith
    ]
  ]

  restore_database-SameRun :
      (backup : BackupData) (a b : Db r)
      → Alike a b
      → SameRun (Upkeep.restore_database r backup a) (Upkeep.restore_database r backup b)
  restore_database-SameRun backup a b alike = rw (sym alike) (restore_with_local backup b a)

  pub apply_command-SameRun :
      (here there : ℕ) (command : Command)
      → is_local command ≡ false
      → (a b : Db r) → Alike a b
      → SameRun (apply_command r here command a) (apply_command r there command b)
  unfolding apply_command is_local
  apply_command-SameRun here there (create_secret s v) h = run_Shared _ (create-Shared s v)
  apply_command-SameRun here there (put_version n x v s m) h =
      run_Shared _ (put_version-Shared n x v s m)
  apply_command-SameRun here there (update_meta n x m) h = run_Shared _ (update_meta-Shared n x m)
  apply_command-SameRun here there (delete_secret n) h = run_Shared _ (delete-Shared n)
  apply_command-SameRun here there (create_role role) h = run_Shared _ (create_role-Shared role)
  apply_command-SameRun here there (set_permissions n rules) h =
      run_Shared _ (set_permissions-Shared n rules)
  apply_command-SameRun here there (delete_role n) h = run_Shared _ (delete_role-Shared n)
  apply_command-SameRun here there (add_token t) h = run_Shared _ (add_token-Shared t)
  apply_command-SameRun here there (revoke_token n at) h = run_Shared _ (revoke_token-Shared n at)
  apply_command-SameRun here there (touch_token f at) h = run_Shared _ (touch_token-Shared f at)
  apply_command-SameRun here there (expire_grace_versions now) h = run_Shared _ (expire-Shared now)
  apply_command-SameRun here there (rewrap_version n v k d at) h =
      run_Shared _ (rewrap-Shared n v k d at)
  apply_command-SameRun here there (set_kms_rewrap_state s) h = run_Shared _ (set_state-Shared s)
  apply_command-SameRun here there (append_audit entry) h = absurd (cc)
  apply_command-SameRun here there (restore_database b) h = restore_database-SameRun b
  apply_command-SameRun here there (record_auth_failure f) h = absurd (cc)
