-- ===== src/Service/Seal.antt =====
-- service.rs: the payloads, their encryption for a version, and the audit log.
use hyperion_vault.Prelude.{
  ℕ, not, Option, none, some, Bytes, ℤ, pos, ◌==◌, if◌then◌else◌, bytes_eq, length,
}
use hyperion_vault.Core.Aad.{aad_for}
use hyperion_vault.Core.Names.{SecretFormat, opaque, userpass}
use hyperion_vault.Store.Model.{VersionRecord, KmsRewrapState, append_audit}
use hyperion_vault.Store.Engine.{kms_rewrap_state}
use hyperion_vault.Api.Error.{IpAddr, broken, ApiResult, done, refused}
use hyperion_vault.Api.DekCache
use hyperion_vault.Service.Site.{
  DataKey, UserPass, Site, Op, ◌>>=◌, ◌>>◌, or_broken, give, refuse, checked, read, try_apply, call,
  draw,
}

-- `NONCE_LEN` of crypto.rs
abbrev pub nonce_len : ℕ
nonce_len = 24

-- what a payload is shown as: value, username, password
abbrev pub Shown : Type 0
Shown = Option Bytes × (Option Bytes × Option Bytes)

abbrev pub completed_rotation : Option KmsRewrapState → ℤ
completed_rotation none = pos 0
completed_rotation (some state) = state.last_completed_rotation_at

abbrev pub map_text : Option IpAddr → (IpAddr → Bytes) → Option Bytes
map_text none text = none
map_text (some ip) text = some (text ip)

module _ (s : Site) (now : ℤ) where
  unfoldable pub audit :
      Option Bytes → Option IpAddr → Bytes → Option Bytes → Bytes → Op s (Unit {0})
  audit actor client_ip action secret_name outcome = try_apply s (
      append_audit (record {
        at = now;
        actor = actor;
        client_ip = map_text client_ip s.outside.ip_text;
        action = action;
        secret_name = secret_name;
        outcome = outcome;
        node_id = 0;
      }))

  abbrev pub sealed : ℤ → DataKey → Bytes → Bytes → Bytes → ℤ → VersionRecord
  sealed version key nonce ciphertext aad generation = record {
    version = version;
    kms_key_id = key.key_id;
    wrapped_dek = key.wrapped;
    nonce = nonce;
    ciphertext = ciphertext;
    aad = aad;
    created_at = now;
    expires_at = none;
    wrapped_rotation_at = some generation;
  }

  unfoldable pub seal_version : Bytes → ℤ → Bytes → Op s VersionRecord
  seal_version name version plaintext = do
    key ← call s (s.externals.generate_data_key name version)
    nonce ← draw s s.externals.generate_nonce
    ciphertext ←
        checked s
          (or_broken (s.externals.encrypt key.plaintext nonce (aad_for name version) plaintext))
    state ← read s (kms_rewrap_state s.r)
    give s (sealed version key nonce ciphertext (aad_for name version) (completed_rotation state))

module _ (s : Site) (tick : ℕ) where
  abbrev pub cached : Bytes → Op s (Option Bytes)
  cached wrapped vault =
      let (dek, cache) = DekCache.get vault.dek_cache wrapped tick in
      (done dek, record vault { dek_cache = cache })

  abbrev pub remember : Bytes → Bytes → Op s (Unit {0})
  remember wrapped dek vault =
      (done tt, record vault { dek_cache = DekCache.put vault.dek_cache wrapped dek tick })

  -- the key of a version: from the cache, or from the KMS and then into the cache
  unfoldable pub data_key : Bytes → ℤ → VersionRecord → Op s Bytes
  data_key name version row = do
    found ← cached row.wrapped_dek
    elim found [
      | some dek ↦ give s dek
      | none ↦ do
        dek ← call s (s.externals.decrypt_data_key row.wrapped_dek row.kms_key_id name version)
        remember row.wrapped_dek dek
        give s dek
    ]

  unfoldable pub open_version : Bytes → ℤ → VersionRecord → Op s Bytes
  unfolding data_key
  open_version name version row =
      if not (bytes_eq row.aad (aad_for name version))
      then refuse s broken
      else if not (length row.nonce == nonce_len)
      then refuse s broken
      else (data_key name version row >>= (λ dek.
          checked s
            (or_broken (s.externals.decrypt dek row.nonce (aad_for name version) row.ciphertext))))

module _ (s : Site) where
  unfoldable pub decode_payload : SecretFormat → Bytes → ApiResult Shown
  decode_payload opaque plaintext =
      if s.externals.is_utf8 plaintext then done (some plaintext, (none, none)) else refused broken
  decode_payload userpass plaintext = elim (s.externals.decode_userpass plaintext) [
    | none ↦ refused broken
    | some up ↦ done (none, (some up.username, some up.password))
  ]

  unfoldable pub decode_userpass : Bytes → ApiResult UserPass
  decode_userpass bytes = or_broken (s.externals.decode_userpass bytes)
