-- ===== src/Store/Expiry.antt =====
-- `ExpireGraceVersions` and `RewrapVersion`: which version rows they change, and how.
use hyperion_vault.Prelude.{
  ◌≡◌, inl, inr, List, [], ◌∷◌, Bool, false, Option, none, some, Bytes, ℤ, leb_ℤ, arith, select,
  if◌then◌else◌, Option-cases, bytes_eq, bytes_eq_iff, ◌≤ℤ◌,
}
use hyperion_vault.Store.Model.{VersionRecord, StoreResult, ok}
use hyperion_vault.Store.Redb.{Storage, Codec, bytes_key}
use hyperion_vault.Store.Redb.Rows.{keys_of, get-remove_selected}
use hyperion_vault.Store.Keys.{version_key}
use hyperion_vault.Store.Db.{Db, StoreResult-cases}
use hyperion_vault.Store.Engine.{then_map}
use hyperion_vault.Store.Versions.{stored}
use hyperion_vault.Store.Apply.Upkeep
use hyperion_vault.Store.Apply.Upkeep.{has_expired, scan_expired, rewrapped, at_least, key_before}

abbrev row_expired : Codec VersionRecord → ℤ → Bytes × Bytes → Bool
row_expired codec now row = elim (codec.decode row.1) [
  | none ↦ false
  | some v ↦ has_expired now v.expires_at
]

scan_expired_keys :
    (codec : Codec VersionRecord) (now : ℤ) (rows : List (Bytes × Bytes)) (keys : List Bytes)
    → scan_expired codec now rows ≡ ok keys
    → keys ≡ keys_of bytes_key (select (row_expired codec now) rows)
unfolding scan_expired
scan_expired_keys codec now [] keys h = ground arith
scan_expired_keys codec now (row ∷ rows) keys h = elim (Option-cases (codec.decode row.1)) [
  | inl bad ↦ ground arith
  | inr (v, d) ↦ elim (StoreResult-cases (scan_expired codec now rows)) [
    | inl (later, e) ↦ ground (arith, scan_expired_keys codec now rows later e)
    | inr (failure, e) ↦ ground arith
  ]
]

abbrev pub dropped : ℤ → Option VersionRecord → Option VersionRecord
dropped now none = none
dropped now (some v) = if has_expired now v.expires_at then none else some v

module _ (r : Storage) where
  -- A successful expiry removes exactly the versions whose expiry is not after `now`; every other
  -- version stays as it was.
  pub expire_exact :
      (now : ℤ) (db : Db r) (k : Bytes)
      → (Upkeep.expire_grace_versions r now db).0 ≡ ok tt
      → stored r (Upkeep.expire_grace_versions r now db).1 k
        ≡ then_map (dropped now) (stored r db k)
  unfolding Upkeep.expire_grace_versions
  expire_exact now db k h =
      elim (StoreResult-cases (scan_expired r.codecs.version now (r.str.iter db.versions))) [
        | inr (failure, e) ↦ ground arith
        | inl (keys, e) ↦
            let found = scan_expired_keys r.codecs.version now (r.str.iter db.versions) keys e in
            ground (
              arith,
              found,
              get-remove_selected bytes_key r.str db.versions (row_expired r.codecs.version now) k,
            )
      ]

  module _ (name : Bytes) (version : ℤ) (kms_key_id wrapped_dek : Bytes) (at : ℤ) (db : Db r) where
    abbrev pub rewrap : StoreResult (Unit {0}) × Db r
    rewrap = Upkeep.rewrap_version r name version kms_key_id wrapped_dek at db

    -- the row with the new key, unless it was wrapped for this rotation or a later one
    abbrev pub rewrapped_row : Option VersionRecord → Option VersionRecord
    rewrapped_row none = none
    rewrapped_row (some row) =
        let moved : VersionRecord = record {
          version = row.version;
          kms_key_id = kms_key_id;
          wrapped_dek = wrapped_dek;
          nonce = row.nonce;
          ciphertext = row.ciphertext;
          aad = row.aad;
          created_at = row.created_at;
          expires_at = row.expires_at;
          wrapped_rotation_at = some at;
        } in
        elim row.wrapped_rotation_at [
          | none ↦ some moved
          | some current ↦ some (if leb_ℤ at current then row else moved)
        ]

    -- A successful re-wrap changes one row at most, the named version's. When that row was wrapped for this
    -- rotation or a later one it stays; else it has the command's key id, wrapped key and rotation, and
    -- every other field as it was.
    pub rewrap_rows :
        (k : Bytes)
        → rewrap.0 ≡ ok tt
        → stored r rewrap.1 k ≡ (
            if bytes_eq (version_key name version) k
            then then_map rewrapped_row (stored r db k)
            else stored r db k)
    unfolding Upkeep.rewrap_version
    rewrap_rows k h = elim (Option-cases (r.str.get db.versions key)) [
      | inl absent ↦ ground (arith, bytes_eq_iff key k)
      | inr (found, e) ↦ elim (Option-cases (r.codecs.version.decode found)) [
        | inl bad ↦ ground arith
        | inr (row, d) ↦
            elim (Option-cases
              (r.codecs.version.encode (rewrapped r row kms_key_id wrapped_dek at))) [
                | inl bad ↦ ground (arith, bytes_eq_iff key k)
                | inr (row', w) ↦ ground (
                  arith,
                  bytes_eq_iff key k,
                  r.str.get-insert db.versions key k row',
                  r.codecs.version.decode-encode (rewrapped r row kms_key_id wrapped_dek at) row' w,
                )
              ]
      ]
    ]
      where
        key : Bytes
        key = version_key name version

    -- A replay for the same rotation, or an earlier one, succeeds and changes nothing, whatever
    -- wrapped key it carries.
    pub rewrap_replay :
        (kms_key_id' wrapped_dek' : Bytes) (at' : ℤ)
        → rewrap.0 ≡ ok tt
        → at' ≤ℤ at
        → Upkeep.rewrap_version r name version kms_key_id' wrapped_dek' at' rewrap.1
          ≡ (ok tt, rewrap.1)
    unfolding Upkeep.rewrap_version
    rewrap_replay kms_key_id' wrapped_dek' at' h earlier =
        elim (Option-cases (r.str.get db.versions key)) [
          | inl absent ↦ ground arith
          | inr (found, e) ↦ elim (Option-cases (r.codecs.version.decode found)) [
            | inl bad ↦ ground arith
            | inr (row, d) ↦
                elim (Option-cases
                  (r.codecs.version.encode (rewrapped r row kms_key_id wrapped_dek at))) [
                    | inl bad ↦ ground arith
                    | inr (row', w) ↦ ground (
                      arith,
                      bytes_eq_iff key key,
                      r.str.get-insert db.versions key key row',
                      r.codecs.version.decode-encode (rewrapped r row kms_key_id wrapped_dek at)
                          row' w,
                    )
                  ]
          ]
        ]
      where
        key : Bytes
        key = version_key name version
