-- ===== src/Store/Db.antt =====
-- The tables of a node (store/engine.rs) and the work inside one write transaction of redb. What was
-- written before an error stays written in the transaction, so the tables come back beside it too.
use hyperion_vault.Prelude.{ℕ, ◌^◌, ◌≡◌, refl, ◌⊎◌, inl, inr, Option, none, some, Bytes, codes}
use hyperion_vault.Store.Model.{
  SecretRecord, VersionRecord, RoleRecord, TokenRecord, LockoutRecord, StoreError, internal,
  StoreResult, ok, err,
}
use hyperion_vault.Store.Redb.{Codec, Storage}

pub record Db (r : Storage) : Type 0 where
  pub secrets : r.str.Table
  pub versions : r.str.Table
  pub roles : r.str.Table
  pub tokens : r.str.Table
  pub tokens_by_name : r.str.Table
  pub lockouts : r.str.Table
  pub audit : r.num.Table
  pub kms_rewrap : r.str.Table

abbrev pub kms_rewrap_state_key : Bytes
kms_rewrap_state_key = codes "state"

abbrev pub max_audit_key : ℕ
max_audit_key = 2 ^ 52

abbrev pub Tx : Storage → Type 0 → Type 0
Tx r A = Db r → StoreResult A × Db r

infixl 5 ◌>>=◌ ◌>>◌
abbrev pub follow :
    {r : Storage} {A B : Type 0} → StoreResult A × Db r → (A → Tx r B) → StoreResult B × Db r
follow (ok a, db) f = f a db
follow (err e, db) f = (err e, db)

abbrev pub ◌>>=◌ : {r : Storage} {A B : Type 0} → Tx r A → (A → Tx r B) → Tx r B
◌>>=◌ m f db = follow (m db) f

abbrev pub ◌>>◌ : {r : Storage} {B : Type 0} → Tx r (Unit {0}) → Tx r B → Tx r B
◌>>◌ m k db = follow (m db) (λ _. k)

-- a row as its record, if there is one: `Some(value) => decode(value.value())?, None => ..`
abbrev pub decoded : {A : Type 0} → Codec A → Option Bytes → StoreResult (Option A)
decoded codec none = ok none
decoded codec (some row) = elim (codec.decode row) [ none ↦ err internal | some a ↦ ok (some a) ]

abbrev pub encoded : {A : Type 0} → Codec A → A → StoreResult Bytes
encoded codec a = elim (codec.encode a) [ none ↦ err internal | some row ↦ ok row ]

module _ (r : Storage) where
  abbrev pub pure : {A : Type 0} → A → Tx r A
  pure a db = (ok a, db)

  abbrev pub fail : {A : Type 0} → StoreError → Tx r A
  fail e db = (err e, db)

  abbrev pub of_result : {A : Type 0} → StoreResult A → Tx r A
  of_result res db = (res, db)

  abbrev pub gets : {A : Type 0} → (Db r → A) → Tx r A
  gets f db = (ok (f db), db)

  abbrev pub modify : (Db r → Db r) → Tx r (Unit {0})
  modify f db = (ok tt, f db)

  abbrev pub find_secret : Bytes → Tx r (Option SecretRecord)
  find_secret name db = (decoded r.codecs.secret (r.str.get db.secrets name), db)

  abbrev pub put_secret : Bytes → SecretRecord → Tx r (Unit {0})
  put_secret name secret = do
    row ← of_result (encoded r.codecs.secret secret)
    modify (λ db. record db { secrets = r.str.insert db.secrets name row })

  abbrev pub find_version : Bytes → Tx r (Option VersionRecord)
  find_version key db = (decoded r.codecs.version (r.str.get db.versions key), db)

  abbrev pub put_version_row : Bytes → VersionRecord → Tx r (Unit {0})
  put_version_row key version = do
    row ← of_result (encoded r.codecs.version version)
    modify (λ db. record db { versions = r.str.insert db.versions key row })

  abbrev pub find_role : Bytes → Tx r (Option RoleRecord)
  find_role name db = (decoded r.codecs.role (r.str.get db.roles name), db)

  abbrev pub put_role : Bytes → RoleRecord → Tx r (Unit {0})
  put_role name role = do
    row ← of_result (encoded r.codecs.role role)
    modify (λ db. record db { roles = r.str.insert db.roles name row })

  abbrev pub find_token : Bytes → Tx r (Option TokenRecord)
  find_token fingerprint db = (decoded r.codecs.token (r.str.get db.tokens fingerprint), db)

  abbrev pub put_token : Bytes → TokenRecord → Tx r (Unit {0})
  put_token fingerprint token = do
    row ← of_result (encoded r.codecs.token token)
    modify (λ db. record db { tokens = r.str.insert db.tokens fingerprint row })

  abbrev pub find_lockout : Bytes → Tx r (Option LockoutRecord)
  find_lockout key db = (decoded r.codecs.lockout (r.str.get db.lockouts key), db)

  abbrev pub put_lockout : Bytes → LockoutRecord → Tx r (Unit {0})
  put_lockout key lock = do
    row ← of_result (encoded r.codecs.lockout lock)
    modify (λ db. record db { lockouts = r.str.insert db.lockouts key row })

pub StoreResult-cases :
    {A : Type 0} (res : StoreResult A)
    → ((a : A) × (res ≡ ok a)) ⊎ ((e : StoreError) × (res ≡ err e))
StoreResult-cases (ok a) = inl (a, refl)
StoreResult-cases (err e) = inr (e, refl)
