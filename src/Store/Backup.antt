-- ===== src/Store/Backup.antt =====
-- store/backup.rs: the dump of the tables, and the restore that checks the rows and replaces them.
use hyperion_vault.Prelude.{
  ℕ, List, [], ◌∷◌, Bool, not, Option, none, some, Bytes, ℤ, ltb, ◌==◌, if◌then◌else◌, ◌&&◌, false,
}
use hyperion_vault.Core.Names.{is_valid_secret_name, is_valid_secret_version}
use hyperion_vault.Store.Model.{
  BackupData, RestoreError, unsupported_version, invalid_secret_name, invalid_version_key,
  audit_key_too_large,
}
use hyperion_vault.Store.Redb.{Key, Kv, Storage, bytes_key, nat_key}
use hyperion_vault.Store.Redb.Rows.{keys_of, remove_all, insert_all}
use hyperion_vault.Store.Keys.{split_version_key}
use hyperion_vault.Store.Db.{Db, max_audit_key}

abbrev pub backup_version : ℕ
backup_version = 1

-- the first row that a check refuses; `none` when all pass
abbrev pub first_refusal : Option RestoreError → Option RestoreError → Option RestoreError
first_refusal none later = later
first_refusal (some e) later = some e

unfoldable pub check_names : List (Bytes × Bytes) → Option RestoreError
check_names [] = none
check_names (row ∷ rows) =
    first_refusal (if is_valid_secret_name row.0 then none else some (invalid_secret_name row.0))
      (check_names rows)

abbrev pub valid_version_key : Option (Bytes × ℤ) → Bool
valid_version_key none = false
valid_version_key (some (name, version)) =
    is_valid_secret_name name && is_valid_secret_version version

unfoldable pub check_version_keys : List (Bytes × Bytes) → Option RestoreError
check_version_keys [] = none
check_version_keys (row ∷ rows) =
    first_refusal
      (if valid_version_key (split_version_key row.0)
        then none
        else some (invalid_version_key row.0))
      (check_version_keys rows)

unfoldable pub check_audit_keys : List (ℕ × Bytes) → Option RestoreError
check_audit_keys [] = none
check_audit_keys (row ∷ rows) =
    first_refusal (if ltb max_audit_key row.0 then some (audit_key_too_large row.0) else none)
      (check_audit_keys rows)

unfoldable pub check_secret_rows : BackupData → Option RestoreError
check_secret_rows backup =
    first_refusal (check_names backup.secrets)
      (first_refusal (check_version_keys backup.versions) (check_audit_keys backup.audit))

-- `restore_str`, `restore_bytes`, `restore_u64`: every row out, then the backup's rows in
unfoldable pub replace_rows :
    {K : Type 0} (key : Key K) (kv : Kv K key) → kv.Table → List (K × Bytes) → kv.Table
unfolding remove_all insert_all
replace_rows key kv table rows =
    insert_all key kv (remove_all key kv table (keys_of key (kv.iter table))) rows

-- `dump_str`, `dump_bytes`, `dump_u64`: the rows of a table, in order
abbrev pub dump_rows : {K : Type 0} (key : Key K) (kv : Kv K key) → kv.Table → List (K × Bytes)
dump_rows key kv table = kv.iter table

module _ (r : Storage) where
  unfoldable pub dump_database : Db r → BackupData
  dump_database db = record {
    version = backup_version;
    secrets = dump_rows bytes_key r.str db.secrets;
    versions = dump_rows bytes_key r.str db.versions;
    roles = dump_rows bytes_key r.str db.roles;
    tokens = dump_rows bytes_key r.str db.tokens;
    tokens_by_name = dump_rows bytes_key r.str db.tokens_by_name;
    audit = dump_rows nat_key r.num db.audit;
    kms_rewrap = dump_rows bytes_key r.str db.kms_rewrap;
  }

  -- the tables after the seven restores; the lockouts are not in a backup
  unfoldable pub replace_tables : Db r → BackupData → Db r
  replace_tables db backup = record db {
    secrets = replace_rows bytes_key r.str db.secrets backup.secrets;
    versions = replace_rows bytes_key r.str db.versions backup.versions;
    roles = replace_rows bytes_key r.str db.roles backup.roles;
    tokens_by_name = replace_rows bytes_key r.str db.tokens_by_name backup.tokens_by_name;
    tokens = replace_rows bytes_key r.str db.tokens backup.tokens;
    audit = replace_rows nat_key r.num db.audit backup.audit;
    kms_rewrap = replace_rows bytes_key r.str db.kms_rewrap backup.kms_rewrap;
  }

  -- the refusal, if there is one, and the tables
  unfoldable pub restore_tables : Db r → BackupData → Option RestoreError × Db r
  restore_tables db backup =
      if not (backup.version == backup_version)
      then (some (unsupported_version backup.version), db)
      else elim (check_secret_rows backup) [
        | some e ↦ (some e, db)
        | none ↦ (none, replace_tables db backup)
      ]
