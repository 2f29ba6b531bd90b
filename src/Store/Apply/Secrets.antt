-- ===== src/Store/Apply/Secrets.antt =====
-- store/apply.rs: the commands on secrets and their versions.
use hyperion_vault.Prelude.{
  List, not, Option, none, some, Bytes, ℤ, eqb_ℤ, if◌then◌else◌, is_some, select,
}
use hyperion_vault.Core.Names.{is_valid_secret_name, is_valid_secret_version}
use hyperion_vault.Store.Model.{
  SecretRecord, VersionRecord, MetaUpdate, NextRotation, keep, to, not_found, conflict,
  version_conflict, bad_secret_name, version_too_small, secret_exists, StoreResult, ok, err,
}
use hyperion_vault.Store.Redb.{Storage, bytes_key, included, excluded}
use hyperion_vault.Store.Redb.Rows.{keys_of, remove_all}
use hyperion_vault.Store.Keys.{version_key, version_lower, version_upper, version_from_key}
use hyperion_vault.Store.Db.{
  Db, Tx, ◌>>=◌, ◌>>◌, pure, fail, of_result, gets, modify, find_secret, put_secret, find_version,
  put_version_row,
}

unfoldable pub check_secret_name : Bytes → StoreResult (Unit {0})
check_secret_name name =
    if is_valid_secret_name name then ok tt else err (conflict (bad_secret_name name))

unfoldable pub check_secret_row : Bytes → ℤ → StoreResult (Unit {0})
unfolding check_secret_name
check_secret_row name version = elim (check_secret_name name) [
  | err e ↦ err e
  | ok _ ↦
      if is_valid_secret_version version then ok tt else err (conflict (version_too_small version))
]

-- `if let Some(value) = ..`: the new value, or the old one
abbrev pub or_old {ℓ} : {A : Type ℓ} → Option A → A → A
or_old none old = old
or_old (some a) old = a

abbrev pub or_same {ℓ} : {A : Type ℓ} → Option A → Option A → Option A
or_same none old = old
or_same (some a) old = some a

abbrev pub or_keep : NextRotation → Option ℤ → Option ℤ
or_keep keep old = old
or_keep (to value) old = value

unfoldable pub apply_meta : SecretRecord → MetaUpdate → SecretRecord
apply_meta secret meta = record secret {
  description = or_same meta.set_description secret.description;
  rotation_interval_secs = or_same meta.set_rotation_interval_secs secret.rotation_interval_secs;
  grace_secs = or_old meta.set_grace_secs secret.grace_secs;
  next_rotation_at = or_keep meta.next_rotation_at secret.next_rotation_at;
  updated_at = meta.updated_at;
}

module _ (r : Storage) where
  unfoldable pub create : SecretRecord → VersionRecord → Tx r (Unit {0})
  unfolding check_secret_row
  create secret version = do
    of_result r (check_secret_row secret.name version.version)
    present ← gets r (λ db. is_some (r.str.get db.secrets secret.name))
    if present then fail r (conflict (secret_exists secret.name)) else do
      put_secret r secret.name secret
      put_version_row r (version_key secret.name version.version) version

  -- the superseded version gets its expiry, unless it has one or is not there
  abbrev pub expire_row : Bytes → ℤ → Option VersionRecord → Tx r (Unit {0})
  expire_row key expiry none = pure r tt
  expire_row key expiry (some prev) =
      if is_some prev.expires_at
      then pure r tt
      else put_version_row r key (record prev { expires_at = some expiry })

  unfoldable pub supersede : Bytes → ℤ → Option ℤ → Tx r (Unit {0})
  supersede name expected none = pure r tt
  supersede name expected (some expiry) = do
    prev ← find_version r (version_key name expected)
    expire_row (version_key name expected) expiry prev

  -- the secret whose current version is the expected one
  unfoldable pub expect_current : Bytes → ℤ → Tx r SecretRecord
  expect_current name expected = do
    found ← find_secret r name
    elim found [
      | none ↦ fail r not_found
      | some secret ↦
          if eqb_ℤ secret.current_version expected then pure r secret else fail r version_conflict
    ]

  unfoldable pub put_version : Bytes → ℤ → VersionRecord → Option ℤ → MetaUpdate → Tx r (Unit {0})
  unfolding check_secret_row supersede expect_current apply_meta
  put_version name expected version supersede_expires_at meta = do
    of_result r (check_secret_row name version.version)
    secret ← expect_current name expected
    put_version_row r (version_key name version.version) version
    supersede name expected supersede_expires_at
    put_secret r name (apply_meta (record secret { current_version = version.version }) meta)

  unfoldable pub update_meta : Bytes → ℤ → MetaUpdate → Tx r (Unit {0})
  unfolding expect_current apply_meta
  update_meta name expected meta = do
    secret ← expect_current name expected
    put_secret r name (apply_meta secret meta)

  -- the keys in the secret's range that are its own
  abbrev pub own_keys : Bytes → Db r → List Bytes
  own_keys name db = keys_of bytes_key (
      select (λ row. is_some (version_from_key name row.0))
        (r.str.range db.versions (included (version_lower name)) (excluded (version_upper name))))

  unfoldable pub delete : Bytes → Tx r (Unit {0})
  delete name = do
    present ← gets r (λ db. is_some (r.str.get db.secrets name))
    if not present then fail r not_found else do
      modify r (λ db. record db { secrets = r.str.remove db.secrets name })
      modify r
          (λ db. record db { versions = remove_all bytes_key r.str db.versions (own_keys name db) })
