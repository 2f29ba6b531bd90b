-- ===== src/Store/Apply/Upkeep.antt =====
-- store/apply.rs: expiry, re-wrapping of data keys, the audit log and the restore of a backup.
use hyperion_vault.Prelude.{
  ℕ, ◌+◌, ◌-◌, ◌^◌, List, [], ◌∷◌, Bool, false, Option, none, some, Bytes, ℤ, leb_ℤ, if◌then◌else◌,
  ltb,
}
use hyperion_vault.Store.Model.{
  VersionRecord, AuditEntry, KmsRewrapState, BackupData, conflict, internal,
  audit_key_space_exhausted, restore_refused, StoreResult, ok, err,
}
use hyperion_vault.Store.Redb.{Storage, Codec, bytes_key, unbounded, included}
use hyperion_vault.Store.Redb.Rows.{remove_all}
use hyperion_vault.Store.Keys.{version_key}
use hyperion_vault.Store.Backup.{restore_tables}
use hyperion_vault.Store.Db.{
  Db, Tx, ◌>>=◌, pure, of_result, gets, modify, find_version, put_version_row, encoded,
  kms_rewrap_state_key, max_audit_key,
}

-- `record.expires_at.is_some_and(|expiry| expiry <= *now)`
abbrev pub has_expired : ℤ → Option ℤ → Bool
has_expired now none = false
has_expired now (some expiry) = leb_ℤ expiry now

abbrev pub key_before : Bool → Bytes → StoreResult (List Bytes) → StoreResult (List Bytes)
key_before b key (err e) = err e
key_before b key (ok keys) = ok (if b then key ∷ keys else keys)

-- the keys of the expired rows; a row that does not decode stops the scan
unfoldable pub scan_expired :
    Codec VersionRecord → ℤ → List (Bytes × Bytes) → StoreResult (List Bytes)
scan_expired codec now [] = ok []
scan_expired codec now (row ∷ rows) =
    let rest = scan_expired codec now rows in
    elim (codec.decode row.1) [
      | none ↦ err internal
      | some version ↦ key_before (has_expired now version.expires_at) row.0 rest
    ]

-- `range.next_back()`: the key of the last row
abbrev pub last_key : List (ℕ × Bytes) → Option ℕ
last_key [] = none
last_key (row ∷ []) = some row.0
last_key (row ∷ next ∷ rows) = last_key (next ∷ rows)

-- `key.checked_add(1)` of a `u64`
abbrev pub next_audit_key : Option ℕ → StoreResult ℕ
next_audit_key none = ok 0
next_audit_key (some key) =
    if ltb key (2 ^ 64 - 1) then ok (key + 1) else err (conflict audit_key_space_exhausted)

-- `current >= *wrapped_rotation_at`
abbrev pub at_least : ℤ → Option ℤ → Bool
at_least target none = false
at_least target (some current) = leb_ℤ target current

module _ (r : Storage) where
  unfoldable pub expire_grace_versions : ℤ → Tx r (Unit {0})
  expire_grace_versions now = do
    rows ← gets r (λ db. r.str.iter db.versions)
    expired ← of_result r (scan_expired r.codecs.version now rows)
    modify r (λ db. record db { versions = remove_all bytes_key r.str db.versions expired })

  abbrev pub rewrapped : VersionRecord → Bytes → Bytes → ℤ → VersionRecord
  rewrapped version kms_key_id wrapped_dek at = record version {
    kms_key_id = kms_key_id;
    wrapped_dek = wrapped_dek;
    wrapped_rotation_at = some at;
  }

  unfoldable pub rewrap_version : Bytes → ℤ → Bytes → Bytes → ℤ → Tx r (Unit {0})
  rewrap_version name version kms_key_id wrapped_dek at = do
    found ← find_version r (version_key name version)
    elim found [
      | none ↦ pure r tt
      | some row ↦
          if at_least at row.wrapped_rotation_at
          then pure r tt
          else put_version_row r (version_key name version)
              (rewrapped row kms_key_id wrapped_dek at)
    ]

  unfoldable pub set_kms_rewrap_state : KmsRewrapState → Tx r (Unit {0})
  set_kms_rewrap_state state = do
    row ← of_result r (encoded r.codecs.rewrap state)
    modify r (λ db. record db { kms_rewrap = r.str.insert db.kms_rewrap kms_rewrap_state_key row })

  -- Rows above the plausible range are not counted.
  abbrev pub last_audit_key : Db r → Option ℕ
  last_audit_key db = last_key (r.num.range db.audit unbounded (included max_audit_key))

  unfoldable pub append_audit : ℕ → AuditEntry → Tx r (Unit {0})
  append_audit node_id entry = do
    last ← gets r last_audit_key
    next ← of_result r (next_audit_key last)
    row ← of_result r (encoded r.codecs.audit (record entry { node_id = node_id }))
    modify r (λ db. record db { audit = r.num.insert db.audit next row })

  unfoldable pub restore_database : BackupData → Tx r (Unit {0})
  unfolding restore_tables
  restore_database backup db =
      let (refusal, restored) = restore_tables r db backup in
      elim refusal [
        | none ↦ (ok tt, restored)
        | some e ↦ (err (conflict (restore_refused e)), restored)
      ]
