-- ===== src/Store/Current/Steps.antt =====
-- store/apply.rs: current versions across the creation of a secret and a change of its metadata.
use hyperion_vault.Prelude.{
  ℕ, ◌^◌, ◌<◌, ◌≡◌, ◌≢◌, refl, sym, ap, ◌∙◌, inl, inr, true, none, some, Bytes, ℤ, pos, arith,
  Option-cases, Bool-cases, bytes_eq, bytes_eq_iff, if◌then◌else◌, All-map,
}
use hyperion_vault.Core.Names.{is_valid_secret_name}
use hyperion_vault.Core.Names.Segments.{is_valid_secret_name_lem}
use hyperion_vault.Store.Model.{SecretRecord, VersionRecord, MetaUpdate, StoreResult, ok}
use hyperion_vault.Store.Redb.{Storage}
use hyperion_vault.Store.Keys.{version_key}
use hyperion_vault.Store.Keys.Exact.{NoZero}
use hyperion_vault.Store.Db.{Db, decoded}
use hyperion_vault.Store.Engine.{secret}
use hyperion_vault.Store.Apply.Secrets
use hyperion_vault.Store.Apply.Secrets.{apply_meta}
use hyperion_vault.Store.Versions.{stored}
use hyperion_vault.Store.Current.{HasCurrent, same_secrets, version_key_inj}

valid-NoZero : (name : Bytes) → is_valid_secret_name name ≡ true → NoZero name
valid-NoZero name h =
    let (_, _, chars) = is_valid_secret_name_lem name h in
    All-map _ (λ c. c ≢ 0) name (λ c p. omega (arith, p.0)) chars

module _ (r : Storage) where
  pub untouched :
      (db after : Db r)
      → HasCurrent r db
      → after.secrets ≡ db.secrets
      → after.versions ≡ db.versions
      → HasCurrent r after
  untouched db after h secrets versions = same_secrets r db after h secrets (λ key row there free.
      (row, ap (λ t. decoded r.codecs.version (r.str.get t key)) versions ∙ there, free))

  update_meta_rows :
      (name : Bytes) (expected : ℤ) (meta : MetaUpdate) (db : Db r)
      → (Secrets.update_meta r name expected meta db).0 ≡ ok tt
      → (old : SecretRecord) × (secret r db name ≡ ok (some old))
        × ((other : Bytes)
            → secret r (Secrets.update_meta r name expected meta db).1 other ≡ (
                if bytes_eq name other then ok (some (apply_meta old meta)) else secret r db other))
        × ((Secrets.update_meta r name expected meta db).1.versions ≡ db.versions)
  unfolding Secrets.update_meta secret
  update_meta_rows name expected meta db done = elim (Option-cases (r.str.get db.secrets name)) [
    | inl absent ↦ absurd (ground arith)
    | inr (row, e) ↦ elim (Option-cases (r.codecs.secret.decode row)) [
      | inl bad ↦ absurd (ground arith)
      | inr (old, d) ↦ elim (Option-cases (r.codecs.secret.encode (apply_meta old meta))) [
        | inl bad ↦ absurd (ground arith)
        | inr (row', w) ↦ (
          old,
          ground arith,
          λ other. ground (
            arith,
            r.str.get-insert db.secrets name other row',
            r.codecs.secret.decode-encode (apply_meta old meta) row' w,
          ),
          ground arith,
        )
      ]
    ]
  ]

  apply_meta-current_version :
      (old : SecretRecord) (meta : MetaUpdate)
      → (apply_meta old meta).current_version ≡ old.current_version
  unfolding apply_meta
  apply_meta-current_version old meta = refl

  pub update_meta-HasCurrent :
      (name : Bytes) (expected : ℤ) (meta : MetaUpdate) (db : Db r)
      → HasCurrent r db
      → (Secrets.update_meta r name expected meta db).0 ≡ ok tt
      → HasCurrent r (Secrets.update_meta r name expected meta db).1
  update_meta-HasCurrent name expected meta db h done other s found =
      let (old, was, secrets, versions) = update_meta_rows name expected meta db done in
      let kept =
        ap (λ t. decoded r.codecs.version (r.str.get t (version_key other s.current_version)))
          versions in
      elim (Bool-cases (bytes_eq name other)) [
        | inr elsewhere ↦
            let (k, row, is_k, fits, clean, there, free) =
              h other s (ground (arith, secrets other)) in
            (k, row, is_k, fits, clean, kept ∙ there, free)
        | inl here ↦
            let same : name ≡ other = (bytes_eq_iff name other).0 here in
            let is_new : apply_meta old meta ≡ s = ground (arith, secrets other) in
            let current : old.current_version ≡ s.current_version =
              sym (apply_meta-current_version old meta) ∙ ap (λ x. x.current_version) is_new in
            let (k, row, is_k, fits, clean, there, free) =
              h other old (ap (secret r db) (sym same) ∙ was) in
            (
              k,
              row,
              sym current ∙ is_k,
              fits,
              clean,
              kept ∙ (ap (λ x. stored r db (version_key other x)) (sym current) ∙ there),
              free,
            )
      ]

  module _ (s : SecretRecord) (v : VersionRecord) (n : ℕ) (fits : n < 2 ^ 31)
      (is_n : v.version ≡ pos n) (current : s.current_version ≡ v.version)
      (lasting : v.expires_at ≡ none) (db : Db r) where
    abbrev creating : StoreResult (Unit {0}) × Db r
    creating = Secrets.create r s v db

    create_rows :
        creating.0 ≡ ok tt
        → (is_valid_secret_name s.name ≡ true)
          × (r.str.get db.secrets s.name ≡ none)
          × ((name : Bytes)
              → secret r creating.1 name
                ≡ (if bytes_eq s.name name then ok (some s) else secret r db name))
          × ((key : Bytes)
              → stored r creating.1 key ≡ (
                  if bytes_eq (version_key s.name v.version) key
                  then ok (some v)
                  else stored r db key))
    unfolding Secrets.create secret
    create_rows done = elim (Option-cases (r.codecs.secret.encode s)) [
      | inl bad ↦ absurd (ground arith)
      | inr (row, w) ↦ elim (Option-cases (r.codecs.version.encode v)) [
        | inl bad ↦ absurd (ground arith)
        | inr (row', w') ↦ (
          ground arith,
          ground arith,
          λ name. ground (
            arith,
            r.str.get-insert db.secrets s.name name row,
            r.codecs.secret.decode-encode s row w,
          ),
          λ key. ground (
            arith,
            r.str.get-insert db.versions (version_key s.name v.version) key row',
            r.codecs.version.decode-encode v row' w',
          ),
        )
      ]
    ]

    pub create-HasCurrent : HasCurrent r db → creating.0 ≡ ok tt → HasCurrent r creating.1
    create-HasCurrent h done name t found =
        let (valid, free, secrets, versions) = create_rows done in
        let clean = valid-NoZero s.name valid in
        elim (Bool-cases (bytes_eq s.name name)) [
          | inl here ↦
              let same : s.name ≡ name = (bytes_eq_iff s.name name).0 here in
              let is_s : s ≡ t = ground (arith, secrets name) in
              let key = version_key s.name v.version in
              rw (← same, ← is_s, current)
                (
                  n,
                  v,
                  is_n,
                  fits,
                  clean,
                  ground (arith, versions key, bytes_eq_iff key key),
                  lasting,
                )
          | inr elsewhere ↦
              let (k, kept, is_k, k_fits, clean', there, no_expiry) =
                h name t (ground (arith, secrets name)) in
              let apart : version_key s.name v.version ≢ version_key name t.current_version = λ e.
                cc (
                  (bytes_eq_iff s.name name).1
                    (version_key_inj s.name name n k clean clean' fits k_fits
                      (rw (← is_n, ← is_k) e)).0) in
              let key = version_key name t.current_version in
              (
                k,
                kept,
                is_k,
                k_fits,
                clean',
                ground (arith, versions key, bytes_eq_iff (version_key s.name v.version) key),
                no_expiry,
              )
        ]
