-- ===== src/Store/Creation.antt =====
-- store/apply.rs and store/engine.rs: a created secret, read back, also after an audit entry.
use hyperion_vault.Prelude.{
  ℕ, ◌≡◌, sym, ap, inl, inr, true, some, Option-cases, Bytes, bytes_eq_iff, is_some, arith,
}
use hyperion_vault.Store.Model
use hyperion_vault.Store.Model.{SecretRecord, VersionRecord, AuditEntry, append_audit, ok, err}
use hyperion_vault.Store.Db.{Db, StoreResult-cases}
use hyperion_vault.Store.Redb.{Storage}
use hyperion_vault.Store.Keys.{version_key}
use hyperion_vault.Store.Apply.{apply_command}
use hyperion_vault.Store.Apply.Secrets
use hyperion_vault.Store.Apply.Upkeep
use hyperion_vault.Store.Engine

module _ (r : Storage) where
  -- a created secret is the one that is read
  created_db : Db r → SecretRecord → VersionRecord → Bytes → Bytes → Db r
  created_db db secret version row version_row = record db {
    secrets = r.str.insert db.secrets secret.name row;
    versions = r.str.insert db.versions (version_key secret.name version.version) version_row;
  }

  current_version-created_db :
      (db : Db r) (secret : SecretRecord) (version : VersionRecord) (row version_row : Bytes)
      → r.codecs.secret.encode secret ≡ some row
      → r.codecs.version.encode version ≡ some version_row
      → version.version ≡ secret.current_version
      → Engine.current_version r (created_db db secret version row version_row) secret.name
        ≡ ok (some (secret, version))
  unfolding Engine.current_version created_db
  current_version-created_db db secret version row version_row e f same =
      let key = version_key secret.name version.version in
      let key_is : version_key secret.name secret.current_version ≡ key =
        ap (version_key secret.name) (sym same) in
      ground (
        arith,
        r.str.get-insert db.secrets secret.name secret.name row,
        bytes_eq_iff secret.name secret.name,
        r.str.get-insert db.versions key key version_row,
        bytes_eq_iff key key,
        r.codecs.secret.decode-encode secret row e,
        r.codecs.version.decode-encode version version_row f,
      )

  create-created_db :
      (secret : SecretRecord) (version : VersionRecord) (db : Db r) (row version_row : Bytes)
      → (Secrets.create r secret version db).0 ≡ ok tt
      → r.codecs.secret.encode secret ≡ some row
      → r.codecs.version.encode version ≡ some version_row
      → (Secrets.create r secret version db).1 ≡ created_db db secret version row version_row
  unfolding Secrets.create created_db
  create-created_db secret version db row version_row h e f = ground arith

  create_encodes :
      (secret : SecretRecord) (version : VersionRecord) (db : Db r)
      → (Secrets.create r secret version db).0 ≡ ok tt
      → (is_some (r.codecs.secret.encode secret) ≡ true)
        × (is_some (r.codecs.version.encode version) ≡ true)
  unfolding Secrets.create
  create_encodes secret version db h = ground arith

  ran_create :
      (node_id : ℕ) (secret : SecretRecord) (version : VersionRecord) (db : Db r)
      → (Engine.apply r node_id (Model.create_secret secret version) db).0 ≡ ok tt
      → ((Secrets.create r secret version db).0 ≡ ok tt)
        × ((Engine.apply r node_id (Model.create_secret secret version) db).1
            ≡ (Secrets.create r secret version db).1)
  unfolding Engine.apply apply_command
  ran_create node_id secret version db h =
      elim (StoreResult-cases (Secrets.create r secret version db).0) [
        | inl (_, e) ↦ ground arith
        | inr (x, e) ↦ absurd (ground arith)
      ]

  pub current_version-create :
      (node_id : ℕ) (secret : SecretRecord) (version : VersionRecord) (db : Db r)
      → (Engine.apply r node_id (Model.create_secret secret version) db).0 ≡ ok tt
      → version.version ≡ secret.current_version
      → Engine.current_version r
          (Engine.apply r node_id (Model.create_secret secret version) db).1
          secret.name
        ≡ ok (some (secret, version))
  current_version-create node_id secret version db h same =
      let (ran, left) = ran_create node_id secret version db h in
      let (has_row, has_version) = create_encodes secret version db ran in
      elim (Option-cases (r.codecs.secret.encode secret)) [
        | inl e ↦ absurd (ground arith)
        | inr (row, e) ↦ elim (Option-cases (r.codecs.version.encode version)) [
          | inl f ↦ absurd (ground arith)
          | inr (version_row, f) ↦
              rw (left, create-created_db secret version db row version_row ran e f)
                (current_version-created_db db secret version row version_row e f same)
        ]
      ]

  -- an audit entry leaves what is read of a secret
  pub current_version-append_audit :
      (node_id : ℕ) (entry : AuditEntry) (db : Db r) (name : Bytes)
      → Engine.current_version r (Engine.apply r node_id (append_audit entry) db).1 name
        ≡ Engine.current_version r db name
  unfolding Engine.apply apply_command Upkeep.append_audit Engine.current_version
  current_version-append_audit node_id entry db name = ground arith
