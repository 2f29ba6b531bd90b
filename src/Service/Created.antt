-- ===== src/Service/Created.antt =====
-- service.rs: a secret that has been created, and is then read.
use hyperion_vault.Prelude.{
  ℕ, ◌≡◌, refl, sym, ap, ◌∙◌, inl, inr, true, none, some, Bytes, ℤ, pos, is_some, arith, codes,
}
use hyperion_vault.Core.Names.{is_valid_secret_name}
use hyperion_vault.Store.Model
use hyperion_vault.Store.Model.{SecretRecord, VersionRecord, AuditEntry, append_audit, ok, err}
use hyperion_vault.Store.Db.{StoreResult-cases}
use hyperion_vault.Store.Engine
use hyperion_vault.Api.Error.{IpAddr, ApiResult-cases, done}
use hyperion_vault.Service.Site.{Site, Vault}
use hyperion_vault.Service.Check.{validate_name, normalize_grace, known_name}
use hyperion_vault.Service.Seal.{Shown, audit, seal_version, open_version, decode_payload}
use hyperion_vault.Service.Sealing.{
  Lawful, seal_version-Sealed, Coherent, open_version-seal_version,
}
use hyperion_vault.Service.Secrets.{CreateSecretRequest, SecretValue, Payload, build_create_payload}
use hyperion_vault.Service.Handlers.{new_secret, store_created, create_secret, value_of, get_secret}
use hyperion_vault.Store.Creation.{current_version-create, current_version-append_audit}
use hyperion_vault.Service.Payloads.{Readable, is_text, decode_payload-build_create_payload}

module _ (s : Site) where
  open s use {externals}

  record Passed (now : ℤ) (actor : Bytes) (req : CreateSecretRequest) (vault : Vault s)
      (value : SecretValue) (after : Vault s) : Type 0 where
    grace : ℤ
    payload : Payload
    built : (build_create_payload s req vault).0 ≡ done payload
    stored :
        store_created s now actor req grace payload (build_create_payload s req vault).1
        ≡ (done value, after)

  create_secret-Passed :
      (now : ℤ) (actor : Bytes) (req : CreateSecretRequest) (vault after : Vault s)
      (value : SecretValue)
      → create_secret s now actor req vault ≡ (done value, after)
      → Passed now actor req vault value after
  unfolding create_secret
  create_secret-Passed now actor req vault after value h =
      elim (ApiResult-cases (normalize_grace req.grace_period_secs)) [
        | inr (e, failed) ↦ absurd (ground arith)
        | inl (grace, fine) ↦ elim (ApiResult-cases (build_create_payload s req vault).0) [
          | inr (e, failed) ↦ absurd (ground arith)
          | inl (payload, built) ↦ record {
            grace = grace;
            payload = payload;
            built = built;
            stored = ground arith;
          }
        ]
      ]

  valid_name :
      (now : ℤ) (actor : Bytes) (req : CreateSecretRequest) (vault after : Vault s)
      (value : SecretValue)
      → create_secret s now actor req vault ≡ (done value, after)
      → is_valid_secret_name req.name ≡ true
  unfolding create_secret validate_name
  valid_name now actor req vault after value h = ground arith

  record Stored (now : ℤ) (req : CreateSecretRequest) (grace : ℤ) (payload : Payload)
      (vault : Vault s) (value : SecretValue) (after : Vault s) : Type 0 where
    row : VersionRecord
    left : Vault s
    sealing : seal_version s now req.name (pos 1) payload.bytes vault ≡ (done row, left)
    reads :
        Engine.current_version s.r after.db req.name
        ≡ ok (some (new_secret now req grace payload, row))
    shows : value ≡ value_of s now (new_secret now req grace payload) (pos 1) now payload.shown

  store_created-Stored :
      (now : ℤ) (actor : Bytes) (req : CreateSecretRequest) (grace : ℤ) (payload : Payload)
      (vault after : Vault s) (value : SecretValue)
      → store_created s now actor req grace payload vault ≡ (done value, after)
      → Stored now req grace payload vault value after
  unfolding store_created audit
  store_created-Stored now actor req grace payload vault after value h =
      let sealing = seal_version s now req.name (pos 1) payload.bytes vault in
      let secret = new_secret now req grace payload in
      elim (ApiResult-cases sealing.0) [
        | inr (e, failed) ↦ absurd (ground arith)
        | inl (row, sealed) ↦
            let command = Model.create_secret secret row in
            elim (StoreResult-cases (Engine.apply s.r s.settings.node_id command sealing.1.db).0) [
              | inr (e, failed) ↦ absurd (ground arith)
              | inl (_, ran) ↦
                  let sealing_is : sealing ≡ (done row, sealing.1) =
                    ap (λ x. (x, sealing.1)) sealed in
                  let first = (Engine.apply s.r s.settings.node_id command sealing.1.db).1 in
                  let number =
                    (seal_version-Sealed s now req.name (pos 1) payload.bytes vault sealing.1 row
                      sealing_is).number in
                  let entry : AuditEntry = record {
                    at = now;
                    actor = some actor;
                    client_ip = none;
                    action = codes "create";
                    secret_name = some req.name;
                    outcome = codes "ok";
                    node_id = 0;
                  } in
                  let left_is : (Engine.apply s.r s.settings.node_id (append_audit entry) first).1
                      ≡ after.db =
                    ground arith in
                  record {
                    row = row;
                    left = sealing.1;
                    sealing = sealing_is;
                    reads = rw⁻¹ left_is (
                        current_version-append_audit s.r s.settings.node_id entry first req.name
                        ∙ current_version-create s.r s.settings.node_id secret row sealing.1.db ran
                            number);
                    shows = ground arith;
                  }
            ]
      ]

  get_secret-opened :
      (now : ℤ) (tick : ℕ) (name : Bytes) (ip : IpAddr) (vault : Vault s) (secret : SecretRecord)
      (row : VersionRecord) (plaintext : Bytes) (shown : Shown)
      → is_valid_secret_name name ≡ true
      → Engine.current_version s.r vault.db name ≡ ok (some (secret, row))
      → (open_version s tick name row.version row vault).0 ≡ done plaintext
      → decode_payload s secret.format plaintext ≡ done shown
      → (get_secret s now tick name ip vault).0
        ≡ done (value_of s now (record secret { name = name }) row.version row.created_at shown)
  unfolding get_secret known_name audit
  get_secret-opened now tick name ip vault secret row plaintext shown valid reads opens decodes =
      ground arith

  -- A secret that has been created, with a value that is UTF-8 if it is given, is read back with the answer
  -- of its creation: its name, kind, format, version, value or user and password, and time. The KMS has
  -- to answer for the row that is stored and the cache to give what the KMS unwraps, and the KMS, the
  -- cipher, JSON and the random source behave as documented.
  pub get_secret-create_secret :
      Lawful externals
      → Readable externals
      → (now later : ℤ) (tick : ℕ) (actor : Bytes) (req : CreateSecretRequest) (ip : IpAddr)
        (vault after : Vault s) (value : SecretValue) (secret : SecretRecord) (row : VersionRecord)
      → is_text externals req.value ≡ true
      → create_secret s now actor req vault ≡ (done value, after)
      → Engine.current_version s.r after.db req.name ≡ ok (some (secret, row))
      → Coherent s tick req.name (pos 1) row after
      → is_some
          (externals.decrypt_data_key row.wrapped_dek row.kms_key_id req.name (pos 1) after.world).0
        ≡ true
      → (get_secret s later tick req.name ip after).0 ≡ done value
  get_secret-create_secret lawful readable now later tick actor req ip vault after value secret row
        text h reads coherent answers =
      let p = create_secret-Passed now actor req vault after value h in
      let built = (build_create_payload s req vault).1 in
      let st = store_created-Stored now actor req p.grace p.payload built after value p.stored in
      let row_is : st.row ≡ row = ground (arith, st.reads) in
      let sealed =
        seal_version-Sealed s now req.name (pos 1) p.payload.bytes built st.left st.row
          st.sealing in
      let (opens, _) =
        open_version-seal_version s lawful now tick req.name (pos 1) p.payload.bytes built st.left
          after row (rw (← row_is) st.sealing) coherent answers in
      let decodes =
        decode_payload-build_create_payload s readable req vault built p.payload text
          (ap (λ x. (x, built)) p.built) in
      let secret_is : new_secret now req p.grace p.payload ≡ secret = ground (arith, st.reads) in
      let number : row.version ≡ pos 1 = rw⁻¹ row_is sealed.number in
      let created : row.created_at ≡ now = rw⁻¹ row_is sealed.created in
      get_secret-opened later tick req.name ip after secret row p.payload.bytes p.payload.shown
        (valid_name now actor req vault after value h) reads
        (ap (λ v. (open_version s tick req.name v row after).0) number ∙ opens)
        (rw⁻¹ secret_is decodes)
      ∙ ap done (sym (st.shows ∙ rw⁻¹ secret_is (rw (number, created) refl)))
