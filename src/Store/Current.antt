-- ===== src/Store/Current.antt =====
-- store/apply.rs and store/engine.rs: the current version of a secret, and the commands that touch it.
pub mod Steps
pub mod Runs
use hyperion_vault.Prelude.{
  ℕ, ◌^◌, ◌<◌, ◌≡◌, ◌≢◌, refl, sym, ap, ◌∙◌, inl, inr, Bool, true, false, Option, none, some, Bytes,
  ℤ, pos, arith, is_some, Option-cases, Bool-cases, bytes_eq, bytes_eq_iff, if◌then◌else◌,
}
use hyperion_vault.Core.Names.{is_valid_secret_name}
use hyperion_vault.Store.Model.{SecretRecord, VersionRecord, MetaUpdate, StoreResult, ok, err}
use hyperion_vault.Store.Redb.{Storage}
use hyperion_vault.Store.Keys.{version_key, version_from_key, split_version_key}
use hyperion_vault.Store.Keys.Exact.{NoZero, split-version_key}
use hyperion_vault.Store.Db.{Db, decoded, StoreResult-cases}
use hyperion_vault.Store.Engine.{secret, then_map}
use hyperion_vault.Store.Apply.Secrets
use hyperion_vault.Store.Apply.Secrets.{apply_meta}
use hyperion_vault.Store.Apply.Upkeep
use hyperion_vault.Store.Apply.Upkeep.{at_least, rewrapped}
use hyperion_vault.Store.Versions.{delete_exact, put_version_rows, stored, superseded}
use hyperion_vault.Store.Concurrency.{secret-put_version, put_version_wrote, written}
use hyperion_vault.Store.Expiry.{expire_exact, dropped, rewrap_rows}

-- different names, or different versions, have different keys
pub version_key_inj :
    (m name : Bytes) (a b : ℕ)
    → NoZero m
    → NoZero name
    → a < 2 ^ 31
    → b < 2 ^ 31
    → version_key m (pos a) ≡ version_key name (pos b)
    → (m ≡ name) × (a ≡ b)
version_key_inj m name a b hm hn ha hb e =
    let one = split-version_key m a hm ha in
    let two = split-version_key name b hn hb in
    let same : split_version_key (version_key m (pos a))
        ≡ split_version_key (version_key name (pos b)) =
      ap split_version_key e in
    (cc, cc)

other_key :
    (m name : Bytes) (a : ℕ)
    → NoZero m
    → a < 2 ^ 31
    → m ≢ name
    → version_from_key name (version_key m (pos a)) ≡ none
unfolding version_from_key
other_key m name a hm ha apart = ground (arith, split-version_key m a hm ha, bytes_eq_iff m name)

module _ (r : Storage) where
  -- a version of a secret is stored, with no expiry
  abbrev pub Lasting : Db r → Bytes → ℤ → Type 0
  Lasting db name v =
      (n : ℕ) × (row : VersionRecord) × (v ≡ pos n)
      × (n < 2 ^ 31)
      × NoZero name
      × (stored r db (version_key name v) ≡ ok (some row))
      × (row.expires_at ≡ none)

  -- every secret's current version is stored, with no expiry
  abbrev pub HasCurrent : Db r → Type 0
  HasCurrent db =
      (name : Bytes) (s : SecretRecord)
      → secret r db name ≡ ok (some s)
      → Lasting db name s.current_version

  -- the tables of another state keep what is stored for a version
  Lasting-kept :
      (db after : Db r) (name : Bytes) (v : ℤ)
      → Lasting db name v
      → ((row : VersionRecord)
          → stored r db (version_key name v) ≡ ok (some row)
          → row.expires_at ≡ none
          → (new : VersionRecord) × (stored r after (version_key name v) ≡ ok (some new))
            × (new.expires_at ≡ none))
      → Lasting after name v
  Lasting-kept db after name v (n, row, e, fits, clean, there, free) keep =
      let (new, now_there, now_free) = keep row there free in
      (n, new, e, fits, clean, now_there, now_free)

  -- the state after a command that leaves the table of secrets alone
  pub same_secrets :
      (db after : Db r)
      → HasCurrent db
      → after.secrets ≡ db.secrets
      → ((key : Bytes) (row : VersionRecord)
          → stored r db key ≡ ok (some row)
          → row.expires_at ≡ none
          → (new : VersionRecord) × (stored r after key ≡ ok (some new)) × (new.expires_at ≡ none))
      → HasCurrent after
  unfolding secret
  same_secrets db after h same keep name s found =
      Lasting-kept db after name s.current_version (h name s (rw (← same) found))
        (keep (version_key name s.current_version))

  expire_secrets :
      (now : ℤ) (db : Db r) → (Upkeep.expire_grace_versions r now db).1.secrets ≡ db.secrets
  unfolding Upkeep.expire_grace_versions
  expire_secrets now db = ground arith

  pub expire-HasCurrent :
      (now : ℤ) (db : Db r)
      → HasCurrent db
      → (Upkeep.expire_grace_versions r now db).0 ≡ ok tt
      → HasCurrent (Upkeep.expire_grace_versions r now db).1
  expire-HasCurrent now db h done =
      same_secrets db (Upkeep.expire_grace_versions r now db).1 h (expire_secrets now db)
        (λ key row there free. (row, ground (arith, expire_exact r now db key done), free))

  module _ (name kms_key_id wrapped_dek : Bytes) (version at : ℤ) (db : Db r) where
    abbrev rewrapping : StoreResult (Unit {0}) × Db r
    rewrapping = Upkeep.rewrap_version r name version kms_key_id wrapped_dek at db

    rewrap_secrets : rewrapping.1.secrets ≡ db.secrets
    unfolding Upkeep.rewrap_version
    rewrap_secrets = ground arith

    rewrap_kept :
        rewrapping.0 ≡ ok tt
        → (key : Bytes) (row : VersionRecord) → stored r db key ≡ ok (some row)
        → row.expires_at ≡ none
        → (new : VersionRecord) × (stored r rewrapping.1 key ≡ ok (some new))
          × (new.expires_at ≡ none)
    rewrap_kept done key row there free =
        let rows = rewrap_rows r name version kms_key_id wrapped_dek at db key done in
        elim (Bool-cases (bytes_eq (version_key name version) key)) [
          | inr other ↦ (row, ground arith, free)
          | inl here ↦ elim (Bool-cases (at_least at row.wrapped_rotation_at)) [
            | inl old ↦ (row, ground arith, free)
            | inr new ↦ (rewrapped r row kms_key_id wrapped_dek at, ground arith, free)
          ]
        ]

    pub rewrap-HasCurrent : HasCurrent db → rewrapping.0 ≡ ok tt → HasCurrent rewrapping.1
    rewrap-HasCurrent h done = same_secrets db rewrapping.1 h rewrap_secrets (rewrap_kept done)

  pub delete-HasCurrent :
      (gone : Bytes) (db : Db r)
      → HasCurrent db
      → is_some (r.str.get db.secrets gone) ≡ true
      → HasCurrent (Secrets.delete r gone db).1
  unfolding secret
  delete-HasCurrent gone db h present name s found =
      let (_, secrets, versions) = delete_exact r gone db present in
      elim (Bool-cases (bytes_eq gone name)) [
        | inl here ↦ absurd (ground (arith, secrets name))
        | inr other ↦
            let before : secret r db name ≡ ok (some s) = ground (arith, secrets name) in
            let (n, row, e, fits, clean, there, free) = h name s before in
            (
              n,
              row,
              e,
              fits,
              clean,
              ground (
                arith,
                versions (version_key name s.current_version),
                other_key name gone n clean fits (λ same. ground (arith, bytes_eq_iff gone name)),
              ),
              free,
            )
      ]

  module _ (name : Bytes) (expected : ℤ) (n : ℕ) (v : VersionRecord) (supersede : Option ℤ)
      (meta : MetaUpdate) (db : Db r) (clean : NoZero name) (fits : n < 2 ^ 31)
      (is_n : v.version ≡ pos n) (lasting : v.expires_at ≡ none) (moved : v.version ≢ expected)
      (h : HasCurrent db) where
    abbrev putting : StoreResult (Unit {0}) × Db r
    putting = Secrets.put_version r name expected v supersede meta db

    -- the expected version is one that is stored, so its key has a number too
    Expected : Type 0
    Expected = (m : ℕ) × (expected ≡ pos m) × (m < 2 ^ 31)

    expected_number : putting.0 ≡ ok tt → Expected
    unfolding Expected
    expected_number done =
        let (old, was, at_expected, _) =
          secret-put_version r name expected v supersede meta db done in
        let (m, _, is_m, m_fits, _, _, _) = h name old was in (m, sym at_expected ∙ is_m, m_fits)

    keys_apart : putting.0 ≡ ok tt → version_key name expected ≢ version_key name v.version
    unfolding Expected
    keys_apart done e =
        let (m, is_m, m_fits) = expected_number done in
        let same =
          (version_key_inj name name m n clean clean m_fits fits (rw (← is_n, ← is_m) e)).1 in
        moved (cc)

    -- a key of the version table that is neither the new nor the superseded one keeps its row
    kept_row :
        (other : Bytes) (k : ℕ)
        → putting.0 ≡ ok tt
        → NoZero other
        → k < 2 ^ 31
        → name ≢ other
        → stored r putting.1 (version_key other (pos k)) ≡ stored r db (version_key other (pos k))
    unfolding Expected
    kept_row other k done clean' fits' apart =
        let (m, is_m, m_fits) = expected_number done in
        let key = version_key other (pos k) in
        let not_new : version_key name v.version ≢ key =
          λ e. apart (version_key_inj name other n k clean clean' fits fits' (rw (← is_n) e)).0 in
        let not_old : version_key name expected ≢ key =
          λ e. apart (version_key_inj name other m k clean clean' m_fits fits' (rw (← is_m) e)).0 in
        ground (
          arith,
          put_version_rows r name expected v supersede meta db key done (keys_apart done),
          bytes_eq_iff (version_key name v.version) key,
          bytes_eq_iff (version_key name expected) key,
        )

    new_row : putting.0 ≡ ok tt → stored r putting.1 (version_key name v.version) ≡ ok (some v)
    new_row done =
        let key = version_key name v.version in
        ground (
          arith,
          put_version_rows r name expected v supersede meta db key done (keys_apart done),
          bytes_eq_iff key key,
        )

    new_current :
        (s old : SecretRecord)
        → secret r putting.1 name ≡ ok (some s)
        → secret r putting.1 name ≡ ok (some (written r old v meta))
        → s.current_version ≡ v.version
    unfolding apply_meta
    new_current s old found now_is =
        let same : s ≡ written r old v meta = cc in ap (λ x. x.current_version) same

    other_secret :
        (other : Bytes) (s : SecretRecord)
        → putting.0 ≡ ok tt
        → bytes_eq name other ≡ false
        → secret r putting.1 other ≡ ok (some s)
        → secret r db other ≡ ok (some s)
    unfolding secret
    other_secret other s done elsewhere found =
        let (_, row, _, _, _, wrote, _) =
          put_version_wrote r name expected v supersede meta db done in
        ground (arith, wrote, r.str.get-insert db.secrets name other row)

    pub put-HasCurrent : putting.0 ≡ ok tt → HasCurrent putting.1
    put-HasCurrent done other s found = elim (Bool-cases (bytes_eq name other)) [
      | inl here ↦
          let same : name ≡ other = (bytes_eq_iff name other).0 here in
          let (old, _, _, now_is) = secret-put_version r name expected v supersede meta db done in
          let current = new_current s old (ap (secret r putting.1) same ∙ found) now_is in
          rw (← same, current) (n, v, is_n, fits, clean, new_row done, lasting)
      | inr elsewhere ↦
          let (k, kept, is_k, k_fits, clean', there, free) =
            h other s (other_secret other s done elsewhere found) in
          let apart : name ≢ other = λ e. cc ((bytes_eq_iff name other).1 e) in
          (
            k,
            kept,
            is_k,
            k_fits,
            clean',
            rw is_k (kept_row other k done clean' k_fits apart ∙ rw (← is_k) there),
            free,
          )
    ]
