-- ===== src/Store/Model.antt =====
-- store/model.rs and the backup record of store/backup.rs. Strings and byte vectors are lists of
-- bytes; `i64` and `i32` fields are integers, `u32` and `u64` fields numbers.
use hyperion_vault.Prelude.{ℕ, List, Bool, true, false, Option, Bytes, ℤ}
use hyperion_vault.Core.Names.{SecretKind, SecretFormat}
use hyperion_vault.Core.Rbac.{Rule}

pub record PgRoleTarget : Type 0 where
  pub hosts : List Bytes
  pub database : Bytes
  pub role : Option Bytes
  pub login_secret : Option Bytes

pub data RotationTarget : Type 0 where
  pg_replica : PgRoleTarget → RotationTarget

pub record SecretRecord : Type 0 where
  pub name : Bytes
  pub kind : SecretKind
  pub format : SecretFormat
  pub description : Option Bytes
  pub rotation_interval_secs : Option ℤ
  pub grace_secs : ℤ
  pub current_version : ℤ
  pub next_rotation_at : Option ℤ
  pub created_at : ℤ
  pub updated_at : ℤ
  pub target : Option RotationTarget

pub record VersionRecord : Type 0 where
  pub version : ℤ
  pub kms_key_id : Bytes
  pub wrapped_dek : Bytes
  pub nonce : Bytes
  pub ciphertext : Bytes
  pub aad : Bytes
  pub created_at : ℤ
  pub expires_at : Option ℤ
  pub wrapped_rotation_at : Option ℤ

pub record RoleRecord : Type 0 where
  pub name : Bytes
  pub description : Option Bytes
  pub is_admin : Bool
  pub permissions : List Rule
  pub created_at : ℤ

pub record TokenRecord : Type 0 where
  pub name : Bytes
  pub role : Option Bytes
  pub fingerprint : Bytes
  pub created_at : ℤ
  pub last_used_at : Option ℤ
  pub revoked_at : Option ℤ

pub record LockoutRecord : Type 0 where
  pub failures : ℕ
  pub window_start : ℤ
  pub locked_until : Option ℤ

pub record AuditEntry : Type 0 where
  pub at : ℤ
  pub actor : Option Bytes
  pub client_ip : Option Bytes
  pub action : Bytes
  pub secret_name : Option Bytes
  pub outcome : Bytes
  pub node_id : ℕ

pub record KmsRewrapState : Type 0 where
  pub last_completed_rotation_at : ℤ
  pub last_swept_at : ℤ
  pub updated_at : ℤ

pub data NextRotation : Type 0 where
  keep : NextRotation
  to : Option ℤ → NextRotation

-- the fields that `PutVersion` and `UpdateMeta` share
pub record MetaUpdate : Type 0 where
  pub set_description : Option Bytes
  pub set_rotation_interval_secs : Option ℤ
  pub set_grace_secs : Option ℤ
  pub next_rotation_at : NextRotation
  pub updated_at : ℤ

pub record BackupData : Type 0 where
  pub version : ℕ
  pub secrets : List (Bytes × Bytes)
  pub versions : List (Bytes × Bytes)
  pub roles : List (Bytes × Bytes)
  pub tokens : List (Bytes × Bytes)
  pub tokens_by_name : List (Bytes × Bytes)
  pub audit : List (ℕ × Bytes)
  pub kms_rewrap : List (Bytes × Bytes)

pub record FailureReport : Type 0 where
  pub key : Bytes
  pub now : ℤ
  pub max : ℕ
  pub window_secs : ℤ
  pub lockout_secs : ℤ

pub data Command : Type 0 where
  create_secret : SecretRecord → VersionRecord → Command
  -- name, expected_current, version, supersede_expires_at
  put_version : Bytes → ℤ → VersionRecord → Option ℤ → MetaUpdate → Command
  -- name, expected_current
  update_meta : Bytes → ℤ → MetaUpdate → Command
  delete_secret : Bytes → Command
  create_role : RoleRecord → Command
  set_permissions : Bytes → List Rule → Command
  delete_role : Bytes → Command
  add_token : TokenRecord → Command
  -- name, revoked_at
  revoke_token : Bytes → ℤ → Command
  -- fingerprint, at
  touch_token : Bytes → ℤ → Command
  expire_grace_versions : ℤ → Command
  -- name, version, kms_key_id, wrapped_dek, wrapped_rotation_at
  rewrap_version : Bytes → ℤ → Bytes → Bytes → ℤ → Command
  set_kms_rewrap_state : KmsRewrapState → Command
  append_audit : AuditEntry → Command
  restore_database : BackupData → Command
  record_auth_failure : FailureReport → Command

unfoldable pub is_local : Command → Bool
is_local (append_audit entry) = true
is_local (record_auth_failure report) = true
is_local _ = false

-- why a restore is refused
pub data RestoreError : Type 0 where
  unsupported_version : ℕ → RestoreError
  invalid_secret_name : Bytes → RestoreError
  invalid_version_key : Bytes → RestoreError
  audit_key_too_large : ℕ → RestoreError

-- the message of a conflict, with the values that it prints
pub data Message : Type 0 where
  bad_secret_name : Bytes → Message
  version_too_small : ℤ → Message
  secret_exists : Bytes → Message
  role_exists : Bytes → Message
  role_has_tokens : Bytes → Message
  fingerprint_exists : Message
  token_exists : Bytes → Message
  audit_key_space_exhausted : Message
  restore_refused : RestoreError → Message

pub data StoreError : Type 0 where
  not_found : StoreError
  conflict : Message → StoreError
  version_conflict : StoreError
  internal : StoreError

pub data StoreResult {ℓ} (A : Type ℓ) : Type ℓ where
  ok : A → StoreResult A
  err : StoreError → StoreResult A
