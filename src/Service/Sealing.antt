-- ===== src/Service/Sealing.antt =====
-- service.rs: what `open_version` makes of a row that `seal_version` has written.
use hyperion_vault.Prelude.{
  ℕ, ◌≡◌, refl, sym, ◌∙◌, inl, inr, true, none, some, Option-cases, Bytes, bytes_eq, bytes_eq_iff,
  ℤ, Bool-cases, is_some, length, arith,
}
use hyperion_vault.Core.Aad.{aad_for, aad_for_inj}
use hyperion_vault.Store.Model.{VersionRecord}
use hyperion_vault.Store.Db.{StoreResult-cases}
use hyperion_vault.Store.Engine.{kms_rewrap_state}
use hyperion_vault.Api.Error.{broken, done, refused}
use hyperion_vault.Api.DekCache
use hyperion_vault.Service.Site.{DataKey, Externals, Site, Vault}
use hyperion_vault.Service.Seal.{
  nonce_len, completed_rotation, sealed, seal_version, data_key, open_version,
}

-- what is documented of the KMS, the cipher and the random source
pub record Lawful (x : Externals) : Type 0 where
  pub decrypt-encrypt :
      (key nonce aad text ciphertext : Bytes)
      → x.encrypt key nonce aad text ≡ some ciphertext
      → x.decrypt key nonce aad ciphertext ≡ some text
  -- a KMS that unwraps the key it has given unwraps it to that key
  pub decrypt_data_key-generate_data_key :
      (name : Bytes) (version : ℤ) (w later : x.World) (key : DataKey) (dek : Bytes)
      → (x.generate_data_key name version w).0 ≡ some key
      → (x.decrypt_data_key key.wrapped key.key_id name version later).0 ≡ some dek
      → dek ≡ key.plaintext
  pub length-generate_nonce : (w : x.World) → length (x.generate_nonce w).0 ≡ nonce_len

module _ (s : Site) where
  open s use {externals}

  -- what a sealed row is made of
  pub record Sealed (now : ℤ) (name : Bytes) (version : ℤ) (plaintext : Bytes) (vault : Vault s)
      (row : VersionRecord) (after : Vault s) : Type 0 where
    pub key : DataKey
    pub generated : (externals.generate_data_key name version vault.world).0 ≡ some key
    pub wrapped : row.wrapped_dek ≡ key.wrapped
    pub key_id : row.kms_key_id ≡ key.key_id
    pub aad : row.aad ≡ aad_for name version
    pub number : row.version ≡ version
    pub created : row.created_at ≡ now
    pub lasting : row.expires_at ≡ none
    pub encrypted :
        externals.encrypt key.plaintext row.nonce (aad_for name version) plaintext
        ≡ some row.ciphertext
    pub drawn : (w : externals.World) × (row.nonce ≡ (externals.generate_nonce w).0)
    pub tables : after.db ≡ vault.db
    pub cache : after.dek_cache ≡ vault.dek_cache

  pub seal_version-Sealed :
      (now : ℤ) (name : Bytes) (version : ℤ) (plaintext : Bytes) (vault after : Vault s)
      (row : VersionRecord)
      → seal_version s now name version plaintext vault ≡ (done row, after)
      → Sealed now name version plaintext vault row after
  unfolding seal_version
  seal_version-Sealed now name version plaintext vault after row h =
      let out = externals.generate_data_key name version vault.world in
      let nonce = externals.generate_nonce out.1 in
      elim (Option-cases out.0) [
        | inl e ↦ absurd (ground arith)
        | inr (key, generated) ↦
            elim (Option-cases
              (externals.encrypt key.plaintext nonce.0 (aad_for name version) plaintext)) [
                | inl e ↦ absurd (ground arith)
                | inr (ciphertext, encrypted) ↦
                    elim (StoreResult-cases (kms_rewrap_state s.r vault.db)) [
                      | inr (e, failed) ↦ absurd (ground arith)
                      | inl (state, reads) ↦
                          let written =
                            sealed s now version key nonce.0 ciphertext (aad_for name version)
                              (completed_rotation state) in
                          let left : Vault s = record vault { world = nonce.1 } in
                          let row_is : written ≡ row = ground arith in
                          let left_is : left ≡ after = ground arith in
                          record {
                            key = key;
                            generated = generated;
                            wrapped = rw⁻¹ row_is refl;
                            key_id = rw⁻¹ row_is refl;
                            aad = rw⁻¹ row_is refl;
                            number = rw⁻¹ row_is refl;
                            created = rw⁻¹ row_is refl;
                            lasting = rw⁻¹ row_is refl;
                            encrypted = rw⁻¹ row_is encrypted;
                            drawn = (out.1, rw⁻¹ row_is refl);
                            tables = rw⁻¹ left_is refl;
                            cache = rw⁻¹ left_is refl;
                          }
                    ]
              ]
      ]

  -- what the cache gives for a row is what the KMS unwraps
  abbrev pub Coherent : ℕ → Bytes → ℤ → VersionRecord → Vault s → Type 0
  Coherent tick name version row vault =
      (dek : Bytes)
      → (DekCache.get vault.dek_cache row.wrapped_dek tick).0 ≡ some dek
      → (externals.decrypt_data_key row.wrapped_dek row.kms_key_id name version vault.world).0
        ≡ some dek

  data_key-Coherent :
      (tick : ℕ) (name : Bytes) (version : ℤ) (row : VersionRecord) (vault : Vault s) (dek : Bytes)
      → Coherent tick name version row vault
      → (externals.decrypt_data_key row.wrapped_dek row.kms_key_id name version vault.world).0
        ≡ some dek
      → ((data_key s tick name version row vault).0 ≡ done dek)
        × ((data_key s tick name version row vault).1.db ≡ vault.db)
  unfolding data_key
  data_key-Coherent tick name version row vault dek coherent unwraps =
      elim (Option-cases (DekCache.get vault.dek_cache row.wrapped_dek tick).0) [
        | inl missed ↦ ground arith
        | inr (hit, e) ↦ ground (arith, coherent hit e)
      ]

  -- A row that was sealed for a name and a version opens, under that name and version, to the bytes that
  -- were sealed, on any state of the node whose KMS answers and whose cache gives what the KMS unwraps, if
  -- the KMS, the cipher and the random source behave as documented. Opening it leaves the tables as they are.
  pub open_version-seal_version :
      Lawful externals
      → (now : ℤ) (tick : ℕ) (name : Bytes) (version : ℤ) (plaintext : Bytes)
        (vault after later : Vault s) (row : VersionRecord)
      → seal_version s now name version plaintext vault ≡ (done row, after)
      → Coherent tick name version row later
      → is_some
          (externals.decrypt_data_key row.wrapped_dek row.kms_key_id name version later.world).0
        ≡ true
      → ((open_version s tick name version row later).0 ≡ done plaintext)
        × ((open_version s tick name version row later).1.db ≡ later.db)
  unfolding open_version
  open_version-seal_version lawful now tick name version plaintext vault after later row h coherent
        answers =
      let sealed = seal_version-Sealed now name version plaintext vault after row h in
      elim (Option-cases
        (externals.decrypt_data_key row.wrapped_dek row.kms_key_id name version later.world).0) [
          | inl e ↦ absurd (ground arith)
          | inr (dek, e) ↦
              let is_key : dek ≡ sealed.key.plaintext =
                lawful.decrypt_data_key-generate_data_key name version vault.world later.world
                  sealed.key dek sealed.generated (rw (← sealed.wrapped, ← sealed.key_id) e) in
              let opened : externals.decrypt dek row.nonce (aad_for name version) row.ciphertext
                  ≡ some plaintext =
                rw is_key (lawful.decrypt-encrypt _ _ _ _ _ sealed.encrypted) in
              let fits : length row.nonce ≡ nonce_len =
                rw sealed.drawn.1 (lawful.length-generate_nonce sealed.drawn.0) in
              let (given, kept) = data_key-Coherent tick name version row later dek coherent e in
              let same_aad = (bytes_eq_iff row.aad (aad_for name version)).1 sealed.aad in
              ground (arith, given, kept)
        ]

  -- A row that was sealed for a name and a version is refused under any other name or version, and nothing
  -- is done then.
  pub open_version-other :
      (now : ℤ) (tick : ℕ) (name other : Bytes) (version number : ℤ) (plaintext : Bytes)
      (vault after later : Vault s) (row : VersionRecord)
      → seal_version s now name version plaintext vault ≡ (done row, after)
      → ((name ≡ other) × (version ≡ number) → ⊥)
      → open_version s tick other number row later ≡ (refused broken, later)
  unfolding open_version
  open_version-other now tick name other version number plaintext vault after later row h apart =
      let sealed = seal_version-Sealed now name version plaintext vault after row h in
      elim (Bool-cases (bytes_eq row.aad (aad_for other number))) [
        | inr differs ↦ ground arith
        | inl same ↦
            let (n, v) =
              aad_for_inj name other version number
                (sym sealed.aad ∙ (bytes_eq_iff row.aad (aad_for other number)).0 same) in
            absurd (apart (n, v))
      ]
