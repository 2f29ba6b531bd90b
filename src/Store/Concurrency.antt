-- ===== src/Store/Concurrency.antt =====
-- Optimistic concurrency of the writes to a secret: `expected_current` decides between writers.
use hyperion_vault.Prelude.{
  ◌≡◌, ◌≢◌, inl, inr, true, Option, some, Bytes, ℤ, arith, Option-cases, eq_of_parts, bytes_eq_iff,
}
use hyperion_vault.Core.Names.{is_valid_secret_version}
use hyperion_vault.Store.Model.{
  SecretRecord, VersionRecord, MetaUpdate, version_conflict, StoreResult, ok, err,
}
use hyperion_vault.Store.Redb.{Storage}
use hyperion_vault.Store.Db.{Db}
use hyperion_vault.Store.Engine.{secret}
use hyperion_vault.Store.Apply.Secrets
use hyperion_vault.Store.Apply.Secrets.{check_secret_row, apply_meta}

module _ (r : Storage) where
  -- the record that a successful `PutVersion` writes over the one it found
  abbrev pub written : SecretRecord → VersionRecord → MetaUpdate → SecretRecord
  written old v meta = apply_meta (record old { current_version = v.version }) meta

  module _ (name : Bytes) (expected : ℤ) (v : VersionRecord) (supersede : Option ℤ)
      (meta : MetaUpdate) (db : Db r) where
    abbrev put : StoreResult (Unit {0}) × Db r
    put = Secrets.put_version r name expected v supersede meta db

    -- what a successful write found and wrote in the table of secrets
    abbrev Wrote : Type 0
    Wrote =
        (old : SecretRecord) × (row : Bytes) × (secret r db name ≡ ok (some old))
        × (old.current_version ≡ expected)
        × (r.codecs.secret.encode (written old v meta) ≡ some row)
        × (put.1.secrets ≡ r.str.insert db.secrets name row)
        × (check_secret_row name v.version ≡ ok tt)

    pub put_version_wrote : put.0 ≡ ok tt → Wrote
    unfolding Secrets.put_version secret
    put_version_wrote h = elim (Option-cases (r.str.get db.secrets name)) [
      | inl absent ↦ ground arith
      | inr (found, e) ↦ elim (Option-cases (r.codecs.secret.decode found)) [
        | inl bad ↦ ground arith
        | inr (old, d) ↦ elim (Option-cases (r.codecs.secret.encode (written old v meta))) [
          | inl bad ↦ ground arith
          | inr (row, w) ↦ (
            old,
            row,
            ground arith,
            ground (arith, eq_of_parts old.current_version expected),
            w,
            ground arith,
            ground arith,
          )
        ]
      ]
    ]

    -- After a successful write the secret reads as the record written.
    pub secret-put_version :
        put.0 ≡ ok tt
        → (old : SecretRecord) × (secret r db name ≡ ok (some old))
          × (old.current_version ≡ expected)
          × (secret r put.1 name ≡ ok (some (written old v meta)))
    secret-put_version h =
        let (old, row, found, current, w, stored, checked) = put_version_wrote h in
        (old, found, current, reread old row w stored)
      where
        reread :
            (old : SecretRecord) (row : Bytes)
            → r.codecs.secret.encode (written old v meta) ≡ some row
            → put.1.secrets ≡ r.str.insert db.secrets name row
            → secret r put.1 name ≡ ok (some (written old v meta))
        reread old row w stored =
            unfold secret in
            rw stored (
              ground (
                arith,
                r.str.get-insert db.secrets name name row,
                bytes_eq_iff name name,
                r.codecs.secret.decode-encode (written old v meta) row w,
              ))

  -- A writer whose expectation is not the current version is refused, and writes nothing.
  stale_put_version :
      (name : Bytes) (expected : ℤ) (v : VersionRecord) (supersede : Option ℤ) (meta : MetaUpdate)
      (db : Db r) (s : SecretRecord)
      → check_secret_row name v.version ≡ ok tt
      → secret r db name ≡ ok (some s)
      → s.current_version ≢ expected
      → Secrets.put_version r name expected v supersede meta db ≡ (err version_conflict, db)
  unfolding Secrets.put_version secret
  stale_put_version name expected v supersede meta db s checked found stale =
      ground (arith, eq_of_parts s.current_version expected)

  stale_update_meta :
      (name : Bytes) (expected : ℤ) (meta : MetaUpdate) (db : Db r) (s : SecretRecord)
      → secret r db name ≡ ok (some s)
      → s.current_version ≢ expected
      → Secrets.update_meta r name expected meta db ≡ (err version_conflict, db)
  unfolding Secrets.update_meta secret
  stale_update_meta name expected meta db s found stale =
      ground (arith, eq_of_parts s.current_version expected)

  check_other_version :
      (name : Bytes) (v w : ℤ)
      → check_secret_row name v ≡ ok tt
      → is_valid_secret_version w ≡ true
      → check_secret_row name w ≡ ok tt
  unfolding check_secret_row
  check_other_version name v w h k = ground arith

  -- No lost update: once a write from an expected version has been committed under another version
  -- number, a second write from the same expected version is refused with a version conflict and
  -- changes nothing, whatever it carries; and so is a change of the metadata.
  pub put_version_excludes :
      (name : Bytes) (expected : ℤ) (v w : VersionRecord) (supersede supersede' : Option ℤ)
      (meta meta' : MetaUpdate) (db : Db r)
      → let first = Secrets.put_version r name expected v supersede meta db in
        first.0 ≡ ok tt
        → v.version ≢ expected
        → is_valid_secret_version w.version ≡ true
        → (Secrets.put_version r name expected w supersede' meta' first.1
            ≡ (err version_conflict, first.1))
          × (Secrets.update_meta r name expected meta' first.1 ≡ (err version_conflict, first.1))
  put_version_excludes name expected v w supersede supersede' meta meta' db h other valid =
      let (old, row, _, _, _, _, checked) = put_version_wrote name expected v supersede meta db h in
      let (_, _, _, found) = secret-put_version name expected v supersede meta db h in
      (
        stale_put_version name expected w supersede' meta' _ _
            (check_other_version name v.version w.version checked valid) found
            (unfold apply_meta in other),
        stale_update_meta name expected meta' _ _ found (unfold apply_meta in other),
      )
