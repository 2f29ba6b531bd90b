-- ===== src/Service/Handlers.antt =====
-- service.rs: the handlers that create, read, update and delete secrets.
use hyperion_vault.Prelude.{
  ℕ, List, [], ◌∷◌, ◌++◌, Bool, ◌&&◌, ◌||◌, not, Option, none, some, Bytes, ℤ, pos, ltb,
  if◌then◌else◌, codes, is_some, length,
}
use hyperion_vault.Core.Names.{manual, automatic, SecretFormat, opaque, userpass}
use hyperion_vault.Core.Rotation.{next_rotation_unix, grace_expiry_unix, next_version}
use hyperion_vault.Store.Model
use hyperion_vault.Store.Model.{
  SecretRecord, VersionRecord, RotationTarget, PgRoleTarget, pg_replica, NextRotation, keep, to,
  MetaUpdate,
}
use hyperion_vault.Store.Engine
use hyperion_vault.Api.Error.{
  IpAddr, interval_required, secret_is_opaque, secret_is_userpass, too_many_versions,
  batch_too_large, missing, bad_request, clash, ApiResult, done, refused,
}
use hyperion_vault.Service.Site.{
  UserPass, Site, Op, ◌>>=◌, ◌>>◌, or_broken, give, refuse, checked, read, apply,
}
use hyperion_vault.Service.Check.{
  optional, validate_name, known_name, validate_interval, validate_value, validate_field,
  normalize_grace, validate_target,
}
use hyperion_vault.Service.Seal.{
  Shown, audit, seal_version, open_version, decode_payload, decode_userpass,
}
use hyperion_vault.Service.Secrets.{
  CreateSecretRequest, UpdateSecretRequest, SecretValue, SecretMetadata, Payload, max_batch,
  is_automatic, or_else, or_default, build_create_payload, or_missing, load_metadata,
}

-- an automatic secret rotates after its interval
abbrev first_rotation : ℤ → CreateSecretRequest → Option ℤ
first_rotation now req = elim req.kind [
  | manual ↦ none
  | automatic ↦ elim req.rotation_interval_secs [
    | none ↦ none
    | some secs ↦ some (next_rotation_unix now secs)
  ]
]

abbrev pub new_secret : ℤ → CreateSecretRequest → ℤ → Payload → SecretRecord
new_secret now req grace payload = record {
  name = req.name;
  kind = req.kind;
  format = payload.format;
  description = req.description;
  rotation_interval_secs = req.rotation_interval_secs;
  grace_secs = grace;
  current_version = pos 1;
  next_rotation_at = first_rotation now req;
  created_at = now;
  updated_at = now;
  target = req.target;
}

abbrev needs_interval : CreateSecretRequest → ApiResult (Unit {0})
needs_interval req =
    if is_automatic req.kind && not (is_some req.rotation_interval_secs)
    then refused (bad_request interval_required)
    else done tt

module _ (s : Site) (now : ℤ) where
  abbrev pub value_of : SecretRecord → ℤ → ℤ → Shown → SecretValue
  value_of secret version created_at shown = record {
    name = secret.name;
    kind = secret.kind;
    format = secret.format;
    version = version;
    shown = shown;
    created_at = s.externals.rfc3339 created_at;
  }

  -- from the payload on: the version is sealed, and then the secret is stored with it
  unfoldable pub store_created : Bytes → CreateSecretRequest → ℤ → Payload → Op s SecretValue
  unfolding seal_version next_rotation_unix audit
  store_created actor req grace payload = do
    version ← seal_version s now req.name (pos 1) payload.bytes
    apply s (Model.create_secret (new_secret now req grace payload) version)
    audit s now (some actor) none (codes "create") (some req.name) (codes "ok")
    give s (value_of (new_secret now req grace payload) (pos 1) now payload.shown)

  unfoldable pub create_secret : Bytes → CreateSecretRequest → Op s SecretValue
  unfolding validate_name normalize_grace validate_target validate_interval build_create_payload
      store_created
  create_secret actor req = do
    checked s (validate_name req.name)
    grace ← checked s (normalize_grace req.grace_period_secs)
    checked s (optional (validate_target s.target_hosts) req.target)
    checked s (optional validate_interval req.rotation_interval_secs)
    checked s (needs_interval req)
    payload ← build_create_payload s req
    store_created actor req grace payload

  unfoldable pub delete_secret : Bytes → Bytes → Op s (Unit {0})
  unfolding audit
  delete_secret actor name = do
    apply s (Model.delete_secret name)
    audit s now (some actor) none (codes "delete") (some name) (codes "ok")

module _ (s : Site) (now : ℤ) (tick : ℕ) where
  -- the value of a secret's version, under the name that was asked for
  abbrev pub open_current : Bytes → IpAddr → SecretRecord × VersionRecord → Op s SecretValue
  open_current name client_ip (secret, version) = do
    plaintext ← open_version s tick name version.version version
    shown ← checked s (decode_payload s secret.format plaintext)
    audit s now none (some client_ip) (codes "get") (some name) (codes "ok")
    give s (value_of s now (record secret { name = name }) version.version version.created_at shown)

  abbrev not_found : Bytes → IpAddr → Op s (Unit {0})
  not_found name client_ip =
      audit s now none (some client_ip) (codes "get") (some name) (codes "not_found")

  unfoldable pub get_secret : Bytes → IpAddr → Op s SecretValue
  unfolding known_name open_version decode_payload audit Engine.current_version
  get_secret name client_ip = do
    checked s (known_name name)
    found ← read s (λ db. Engine.current_version s.r db name)
    elim found [
      | some pair ↦ open_current name client_ip pair
      | none ↦ do not_found name client_ip; refuse s missing
    ]

  abbrev get_known : Bytes → IpAddr → Op s (List SecretValue)
  get_known name client_ip = do
    found ← read s (λ db. Engine.current_version s.r db name)
    elim found [
      | none ↦ do not_found name client_ip; give s []
      | some pair ↦ do value ← open_current name client_ip pair; give s (value ∷ [])
    ]

  -- one round of the loop: the value, if the secret is there
  unfoldable pub get_one : Bytes → IpAddr → Op s (List SecretValue)
  unfolding known_name open_version decode_payload audit Engine.current_version
  get_one name client_ip = elim (known_name name) [
    | done _ ↦ get_known name client_ip
    | refused _ ↦ do not_found name client_ip; give s []
  ]

  unfoldable pub get_each : List Bytes → IpAddr → Op s (List SecretValue)
  unfolding get_one
  get_each [] client_ip = give s []
  get_each (name ∷ names) client_ip = do
    first ← get_one name client_ip
    rest ← get_each names client_ip
    give s (first ++ rest)

  unfoldable pub get_secrets : List Bytes → IpAddr → Op s (List SecretValue)
  unfolding get_each
  get_secrets names client_ip =
      if ltb max_batch (length names)
      then refuse s (bad_request (batch_too_large (length names)))
      else get_each names client_ip

  unfoldable pub load_userpass : Bytes → ℤ → Op s UserPass
  unfolding open_version decode_userpass
  load_userpass name version = do
    found ← read s (λ db. Engine.version s.r db name version)
    row ← checked s (or_broken found)
    plaintext ← open_version s tick name version row
    checked s (decode_userpass s plaintext)

  -- a request may not give the fields of the other format
  abbrev check_format : SecretFormat → UpdateSecretRequest → ApiResult (Unit {0})
  check_format opaque req =
      if is_some req.username || is_some req.password
      then refused (bad_request secret_is_opaque)
      else done tt
  check_format userpass req =
      if is_some req.value then refused (bad_request secret_is_userpass) else done tt

  abbrev changes_value : SecretFormat → UpdateSecretRequest → Bool
  changes_value opaque req = is_some req.value
  changes_value userpass req = is_some req.username || is_some req.password

  abbrev updated_userpass : UpdateSecretRequest → UserPass → UserPass
  updated_userpass req current = record {
    username = or_default current.username req.username;
    password = or_default current.password req.password;
  }

  -- the bytes of the new version
  unfoldable pub updated_bytes : SecretFormat → Bytes → ℤ → UpdateSecretRequest → Op s Bytes
  unfolding validate_value validate_field load_userpass
  updated_bytes opaque name current_version req = do
    checked s (validate_value (or_default [] req.value))
    give s (or_default [] req.value)
  updated_bytes userpass name current_version req = do
    current ← load_userpass name current_version
    checked s (validate_field (codes "username") (updated_userpass req current).username)
    checked s (validate_field (codes "password") (updated_userpass req current).password)
    give s (s.externals.encode_userpass (updated_userpass req current))

  abbrev timer : Bool → SecretRecord → UpdateSecretRequest → NextRotation
  timer reset secret req =
      if reset
      then to (
          some (
            next_rotation_unix now (
              or_default (pos 0)
                (or_else req.rotation_interval_secs secret.rotation_interval_secs))))
      else keep

  abbrev meta_of : Bool → SecretRecord → UpdateSecretRequest → MetaUpdate
  meta_of reset secret req = record {
    set_description = req.description;
    set_rotation_interval_secs = req.rotation_interval_secs;
    set_grace_secs = req.grace_period_secs;
    next_rotation_at = timer reset secret req;
    updated_at = now;
  }

  abbrev pub or_too_many : Option ℤ → ApiResult ℤ
  or_too_many none = refused (clash too_many_versions)
  or_too_many (some version) = done version

  abbrev put_command : Bytes → SecretRecord → UpdateSecretRequest → Op s Model.Command
  put_command name secret req = do
    bytes ← updated_bytes secret.format name secret.current_version req
    new_version ← checked s (or_too_many (next_version secret.current_version))
    version ← seal_version s now name new_version bytes
    give s (
        Model.put_version name secret.current_version version
          (some (grace_expiry_unix now secret.grace_secs))
          (meta_of (is_automatic secret.kind) secret req))

  abbrev meta_command : Bytes → SecretRecord → UpdateSecretRequest → Op s Model.Command
  meta_command name secret req = give s (
      Model.update_meta name secret.current_version
        (meta_of (is_automatic secret.kind && is_some req.rotation_interval_secs) secret req))

  unfoldable pub update_command : Bytes → SecretRecord → UpdateSecretRequest → Op s Model.Command
  unfolding updated_bytes seal_version next_version grace_expiry_unix next_rotation_unix
  update_command name secret req =
      if changes_value secret.format req
      then put_command name secret req
      else meta_command name secret req

  abbrev optional_grace : Option ℤ → ApiResult ℤ
  optional_grace none = done (pos 0)
  optional_grace (some secs) = normalize_grace (some secs)

  unfoldable pub update_secret : Bytes → Bytes → UpdateSecretRequest → Op s SecretMetadata
  unfolding validate_interval normalize_grace update_command audit load_metadata Engine.secret
  update_secret actor name req = do
    checked s (optional validate_interval req.rotation_interval_secs)
    _ ← checked s (optional_grace req.grace_period_secs)
    found ← read s (λ db. Engine.secret s.r db name)
    secret ← or_missing s found
    checked s (check_format secret.format req)
    command ← update_command name secret req
    apply s command
    audit s now (some actor) none (codes "update") (some name) (codes "ok")
    load_metadata s name
