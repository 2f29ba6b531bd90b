-- ===== src/Store/Versions.antt =====
-- What the commands on secrets do to the version table.
use hyperion_vault.Prelude.{
  ◌≡◌, ◌≢◌, refl, ap, ◌∙◌, inl, inr, List, [], ◌∷◌, Bool, true, Option, none, some, Bytes, ℤ, arith,
  is_some, select, if◌then◌else◌, Option-cases, bytes_eq, bytes_eq_iff, ◌&&◌,
}
use hyperion_vault.Store.Model.{VersionRecord, MetaUpdate, StoreResult, ok}
use hyperion_vault.Store.Redb.{Storage, bytes_key, within, included, excluded}
use hyperion_vault.Store.Redb.Rows.{keys_of, unless, remove_all, get-remove_selected}
use hyperion_vault.Store.Keys.{version_key, version_lower, version_upper, version_from_key}
use hyperion_vault.Store.Keys.Exact.{version_from_key_in_range}
use hyperion_vault.Store.Db.{Db, Tx, ◌>>◌, put_version_row, decoded}
use hyperion_vault.Store.Engine.{then_map}
use hyperion_vault.Store.Apply.Secrets

-- two tests in a row select what their conjunction selects
select-select {ℓ} :
    {A : Type ℓ} (p q : A → Bool) (xs : List A)
    → select p (select q xs) ≡ select (λ x. q x && p x) xs
select-select p q [] = refl
select-select p q (x ∷ xs) = ground (arith, select-select p q xs)

select_ext {ℓ} :
    {A : Type ℓ} (p q : A → Bool) (xs : List A) → ((x : A) → p x ≡ q x) → select p xs ≡ select q xs
select_ext p q [] h = refl
select_ext p q (x ∷ xs) h = ground (arith, h x, select_ext p q xs h)

abbrev own : Bytes → Bytes × Bytes → Bool
own name row = is_some (version_from_key name row.0)

own_in_range :
    (name : Bytes) (row : Bytes × Bytes)
    → (within bytes_key (included (version_lower name)) (excluded (version_upper name)) row
        && own name row)
      ≡ own name row
own_in_range name row = elim (Option-cases (version_from_key name row.0)) [
  | inl e ↦ ground arith
  | inr (v, e) ↦ ground (arith, version_from_key_in_range name row.0 v e)
]

module _ (r : Storage) where
  -- The scan of a secret's range finds its rows, all of them.
  own_keys_lem :
      (db : Db r) (name : Bytes)
      → Secrets.own_keys r name db ≡ keys_of bytes_key (select (own name) (r.str.iter db.versions))
  own_keys_lem db name =
      ap (λ rows. keys_of bytes_key (select (own name) rows))
        (r.str.range-iter db.versions (included (version_lower name))
          (excluded (version_upper name)))
      ∙ ap (keys_of bytes_key) (
          select-select (own name) _ (r.str.iter db.versions)
          ∙ select_ext _ (own name) (r.str.iter db.versions) (own_in_range name))

  -- Deleting a secret that is there removes its row and exactly the version rows whose key belongs
  -- to it: every other key of both tables keeps its row, another secret's too.
  pub delete_exact :
      (name : Bytes) (db : Db r)
      → is_some (r.str.get db.secrets name) ≡ true
      → let (res, after) = Secrets.delete r name db in
        (res ≡ ok tt)
        × ((k : Bytes)
            → r.str.get after.secrets k
              ≡ (if bytes_eq name k then none else r.str.get db.secrets k))
        × ((k : Bytes)
            → r.str.get after.versions k
              ≡ (if is_some (version_from_key name k) then none else r.str.get db.versions k))
  unfolding Secrets.delete
  delete_exact name db h = (
    ground arith,
    λ k. ground (arith, r.str.get-remove db.secrets name k),
    λ k. ground (arith, removed k),
  )
    where
      removed :
          (k : Bytes)
          → r.str.get (remove_all bytes_key r.str db.versions (Secrets.own_keys r name db)) k
            ≡ unless bytes_key (own name) k (r.str.get db.versions k)
      removed k =
          ap (λ keys. r.str.get (remove_all bytes_key r.str db.versions keys) k)
            (own_keys_lem db name)
          ∙ get-remove_selected bytes_key r.str db.versions (own name) k

  -- the record that is stored under a key of the version table
  abbrev pub stored : Db r → Bytes → StoreResult (Option VersionRecord)
  stored db key = decoded r.codecs.version (r.str.get db.versions key)

  -- a superseded version expires, unless it had an expiry already
  abbrev pub superseded : Option ℤ → Option VersionRecord → Option VersionRecord
  superseded none prev = prev
  superseded (some expiry) none = none
  superseded (some expiry) (some prev) =
      some (if is_some prev.expires_at then prev else record prev { expires_at = some expiry })

  -- the part of a write that is about the version table
  abbrev store_version : Bytes → ℤ → VersionRecord → Option ℤ → Tx r (Unit {0})
  store_version name expected v supersede = do
    put_version_row r (version_key name v.version) v
    Secrets.supersede r name expected supersede

  put_version_stores :
      (name : Bytes) (expected : ℤ) (v : VersionRecord) (supersede : Option ℤ) (meta : MetaUpdate)
      (db : Db r)
      → (Secrets.put_version r name expected v supersede meta db).0 ≡ ok tt
      → ((store_version name expected v supersede db).0 ≡ ok tt)
        × ((Secrets.put_version r name expected v supersede meta db).1.versions
            ≡ (store_version name expected v supersede db).1.versions)
  unfolding Secrets.put_version
  put_version_stores name expected v supersede meta db h = ground arith

  module _ (name : Bytes) (expected : ℤ) (v : VersionRecord) (db : Db r) (k row : Bytes)
      (other : version_key name expected ≢ version_key name v.version)
      (wrote : r.codecs.version.encode v ≡ some row) where
    abbrev first_write : Db r
    first_write = record db { versions = r.str.insert db.versions (version_key name v.version) row }

    stored_first :
        stored first_write k
        ≡ (if bytes_eq (version_key name v.version) k then ok (some v) else stored db k)
    stored_first = ground (
      arith,
      r.str.get-insert db.versions (version_key name v.version) k row,
      r.codecs.version.decode-encode v row wrote,
    )

    stored_prev :
        stored first_write (version_key name expected) ≡ stored db (version_key name expected)
    stored_prev = ground (
      arith,
      r.str.get-insert db.versions (version_key name v.version) (version_key name expected) row,
      bytes_eq_iff (version_key name v.version) (version_key name expected),
    )

    supersede_rows :
        (supersede : Option ℤ)
        → (Secrets.supersede r name expected supersede first_write).0 ≡ ok tt
        → stored (Secrets.supersede r name expected supersede first_write).1 k ≡ (
            if bytes_eq (version_key name v.version) k
            then ok (some v)
            else if bytes_eq (version_key name expected) k
            then then_map (superseded supersede) (stored db k)
            else stored db k)
    unfolding Secrets.supersede
    supersede_rows none h = ground (arith, stored_first, bytes_eq_iff (version_key name expected) k)
    supersede_rows (some expiry) h = elim (Option-cases (r.str.get first_write.versions prev_key)) [
      | inl absent ↦ ground (arith, stored_first, stored_prev, bytes_eq_iff prev_key k)
      | inr (found, e) ↦ elim (Option-cases (r.codecs.version.decode found)) [
        | inl bad ↦ ground arith
        | inr (prev, d) ↦ elim (Option-cases (r.codecs.version.encode (expired prev))) [
          | inl bad ↦ ground (arith, stored_first, stored_prev, bytes_eq_iff prev_key k)
          | inr (row', w) ↦ ground (
            arith,
            stored_first,
            stored_prev,
            bytes_eq_iff prev_key k,
            bytes_eq_iff (version_key name v.version) k,
            r.str.get-insert first_write.versions prev_key k row',
            r.codecs.version.decode-encode (expired prev) row' w,
          )
        ]
      ]
    ]
      where
        prev_key : Bytes
        prev_key = version_key name expected

        expired : VersionRecord → VersionRecord
        expired prev = record prev { expires_at = some expiry }

  -- A successful write of a version, whose key is not that of the expected one, stores it under its key, gives the version that it supersedes
  -- its expiry, and leaves the rows of all other keys as they were.
  pub put_version_rows :
      (name : Bytes) (expected : ℤ) (v : VersionRecord) (supersede : Option ℤ) (meta : MetaUpdate)
      (db : Db r) (k : Bytes)
      → (Secrets.put_version r name expected v supersede meta db).0 ≡ ok tt
      → version_key name expected ≢ version_key name v.version
      → stored (Secrets.put_version r name expected v supersede meta db).1 k ≡ (
          if bytes_eq (version_key name v.version) k
          then ok (some v)
          else if bytes_eq (version_key name expected) k
          then then_map (superseded supersede) (stored db k)
          else stored db k)
  put_version_rows name expected v supersede meta db k h other =
      let (done, same) = put_version_stores name expected v supersede meta db h in
      elim (Option-cases (r.codecs.version.encode v)) [
        | inl bad ↦ ground arith
        | inr (row, w) ↦ ground (arith, supersede_rows name expected v db k row other w supersede)
      ]
