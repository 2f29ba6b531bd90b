-- ===== src/Store/Engine.antt =====
-- store/engine.rs: `RedbStore`, the store of one node. A reader sees one state of the tables; a
-- write is one transaction, which is dropped when the command fails.
use hyperion_vault.Prelude.{
  ℕ, List, [], ◌∷◌, Bool, true, Option, none, some, Bytes, ℤ, ltb_ℤ, pos, bytes_lt, if◌then◌else◌,
  is_some, select, codes,
}
use hyperion_vault.Prelude.Sort.{sort_by}
use hyperion_vault.Store.Model.{
  Command, SecretRecord, VersionRecord, RoleRecord, TokenRecord, LockoutRecord, KmsRewrapState,
  BackupData, internal, StoreResult, ok, err,
}
use hyperion_vault.Store.Redb.{Storage, Codec, included, excluded}
use hyperion_vault.Store.Keys.{version_key, version_lower, version_upper, version_from_key}
use hyperion_vault.Store.Backup.{restore_tables}
use hyperion_vault.Store.Db.{Db, Tx, decoded, kms_rewrap_state_key}
use hyperion_vault.Store.Apply.{apply_command}
use hyperion_vault.Store.Apply.Upkeep.{has_expired}

-- a loop that decodes each row of a scan and stops at one that does not decode
abbrev pub record_before : {A : Type 0} → A → StoreResult (List A) → StoreResult (List A)
record_before a (ok more) = ok (a ∷ more)
record_before a (err e) = err e

unfoldable pub decode_rows : {A : Type 0} → Codec A → List (Bytes × Bytes) → StoreResult (List A)
decode_rows codec [] = ok []
decode_rows codec (row ∷ rows) =
    let rest = decode_rows codec rows in
    elim (codec.decode row.1) [ none ↦ err internal | some a ↦ record_before a rest ]

abbrev pub then_map : {A B : Type 0} → (A → B) → StoreResult A → StoreResult B
then_map f (ok a) = ok (f a)
then_map f (err e) = err e

-- `expires_at.is_none_or(|expiry| now < expiry)`
abbrev pub unexpired : ℤ → Option ℤ → Bool
unexpired now none = true
unexpired now (some expiry) = ltb_ℤ now expiry

-- a later version comes first
abbrev pub newer : VersionRecord → VersionRecord → Bool
newer a b = ltb_ℤ b.version a.version

abbrev pub admin_name : Bytes
admin_name = codes "admin"

abbrev pub admin_role : RoleRecord
admin_role = record {
  name = admin_name;
  description = some (codes "Full superuser access to all secrets and administration");
  is_admin = true;
  permissions = [];
  created_at = pos 0;
}

module _ (r : Storage) where
  unfoldable pub secret : Db r → Bytes → StoreResult (Option SecretRecord)
  secret db name = decoded r.codecs.secret (r.str.get db.secrets name)

  unfoldable pub version : Db r → Bytes → ℤ → StoreResult (Option VersionRecord)
  version db name v = decoded r.codecs.version (r.str.get db.versions (version_key name v))

  abbrev pub with_version :
      Db r → Bytes → Option SecretRecord → StoreResult (Option (SecretRecord × VersionRecord))
  with_version db name none = ok none
  with_version db name (some s) =
      then_map (λ found. elim found [ none ↦ none | some v ↦ some (s, v) ])
        (decoded r.codecs.version (r.str.get db.versions (version_key name s.current_version)))

  unfoldable pub current_version :
      Db r → Bytes → StoreResult (Option (SecretRecord × VersionRecord))
  current_version db name = elim (decoded r.codecs.secret (r.str.get db.secrets name)) [
    | err e ↦ err e
    | ok found ↦ with_version db name found
  ]

  abbrev pub own_rows : Db r → Bytes → List (Bytes × Bytes)
  own_rows db name =
      select (λ row. is_some (version_from_key name row.0))
        (r.str.range db.versions (included (version_lower name)) (excluded (version_upper name)))

  unfoldable pub live_versions : Db r → Bytes → ℤ → StoreResult (List VersionRecord)
  unfolding decode_rows
  live_versions db name now =
      then_map (λ found. sort_by newer (select (λ v. unexpired now v.expires_at) found))
        (decode_rows r.codecs.version (own_rows db name))

  unfoldable pub list_secrets : Db r → StoreResult (List SecretRecord)
  unfolding decode_rows
  list_secrets db =
      then_map (sort_by (λ a b. bytes_lt a.name b.name))
        (decode_rows r.codecs.secret (r.str.iter db.secrets))

  unfoldable pub due_rotations : Db r → ℤ → StoreResult (List SecretRecord)
  unfolding decode_rows
  due_rotations db now =
      then_map (select (λ s. has_expired now s.next_rotation_at))
        (decode_rows r.codecs.secret (r.str.iter db.secrets))

  unfoldable pub role : Db r → Bytes → StoreResult (Option RoleRecord)
  role db name = decoded r.codecs.role (r.str.get db.roles name)

  unfoldable pub list_roles : Db r → StoreResult (List RoleRecord)
  unfolding decode_rows
  list_roles db =
      then_map (sort_by (λ a b. bytes_lt a.name b.name))
        (decode_rows r.codecs.role (r.str.iter db.roles))

  unfoldable pub token_by_fingerprint : Db r → Bytes → StoreResult (Option TokenRecord)
  token_by_fingerprint db fingerprint = decoded r.codecs.token (r.str.get db.tokens fingerprint)

  unfoldable pub list_tokens : Db r → StoreResult (List TokenRecord)
  unfolding decode_rows
  list_tokens db =
      then_map (sort_by (λ a b. bytes_lt a.name b.name))
        (decode_rows r.codecs.token (r.str.iter db.tokens))

  unfoldable pub lockout : Db r → Bytes → StoreResult (Option LockoutRecord)
  lockout db ip = decoded r.codecs.lockout (r.str.get db.lockouts ip)

  unfoldable pub kms_rewrap_state : Db r → StoreResult (Option KmsRewrapState)
  kms_rewrap_state db = decoded r.codecs.rewrap (r.str.get db.kms_rewrap kms_rewrap_state_key)

  -- a write transaction: the tables after it, or the tables before it when it is dropped
  abbrev pub committed : {A : Type 0} → Db r → StoreResult A × Db r → StoreResult A × Db r
  committed before (ok a, after) = (ok a, after)
  committed before (err e, after) = (err e, before)

  unfoldable pub apply : ℕ → Command → Tx r (Unit {0})
  apply node_id c db = committed db (apply_command r node_id c db)

  -- `restore`: an error of the checks becomes an internal error here
  unfoldable pub restore : BackupData → Tx r (Unit {0})
  restore backup db =
      let (refusal, restored) = restore_tables r db backup in
      elim refusal [ none ↦ (ok tt, restored) | some e ↦ (err internal, db) ]

  -- the built-in role, on a store that has no role of that name
  unfoldable pub seed_admin_role : Tx r (Unit {0})
  seed_admin_role db =
      if is_some (r.str.get db.roles admin_name)
      then (ok tt, db)
      else elim (r.codecs.role.encode admin_role) [
        | none ↦ (err internal, db)
        | some row ↦ (ok tt, record db { roles = r.str.insert db.roles admin_name row })
      ]

  -- `init_tables` on a new database
  unfoldable pub empty_db : Db r
  empty_db = record {
    secrets = r.str.new;
    versions = r.str.new;
    roles = r.str.new;
    tokens = r.str.new;
    tokens_by_name = r.str.new;
    lockouts = r.str.new;
    audit = r.num.new;
    kms_rewrap = r.str.new;
  }
