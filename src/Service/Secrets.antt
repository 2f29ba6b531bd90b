-- ===== src/Service/Secrets.antt =====
-- service.rs: creating, reading, updating and deleting secrets.
use hyperion_vault.Prelude.{
  ℕ, List, Bool, true, false, ◌||◌, Option, none, some, Bytes, ℤ, if◌then◌else◌, codes, is_some,
  map,
}
use hyperion_vault.Core.Names.{SecretKind, manual, automatic, SecretFormat, opaque, userpass}
use hyperion_vault.Store.Model.{SecretRecord, RotationTarget}
use hyperion_vault.Store.Engine
use hyperion_vault.Api.Error.{
  value_and_userpass, username_required, password_required, value_required, ApiError, missing,
  bad_request, ApiResult,
}
use hyperion_vault.Api.Manage.{map_option}
use hyperion_vault.Service.Site.{UserPass, Site, Op, ◌>>=◌, ◌>>◌, give, refuse, checked, read, draw}
use hyperion_vault.Service.Check.{validate_value, validate_field}
use hyperion_vault.Service.Seal.{Shown}

pub record CreateSecretRequest : Type 0 where
  pub name : Bytes
  pub kind : SecretKind
  pub value : Option Bytes
  pub username : Option Bytes
  pub password : Option Bytes
  pub description : Option Bytes
  pub rotation_interval_secs : Option ℤ
  pub grace_period_secs : Option ℤ
  pub target : Option RotationTarget

pub record UpdateSecretRequest : Type 0 where
  pub value : Option Bytes
  pub username : Option Bytes
  pub password : Option Bytes
  pub description : Option Bytes
  pub rotation_interval_secs : Option ℤ
  pub grace_period_secs : Option ℤ

pub record SecretValue : Type 0 where
  pub name : Bytes
  pub kind : SecretKind
  pub format : SecretFormat
  pub version : ℤ
  pub shown : Shown
  pub created_at : Bytes

pub record SecretMetadata : Type 0 where
  pub name : Bytes
  pub kind : SecretKind
  pub format : SecretFormat
  pub description : Option Bytes
  pub version : ℤ
  pub rotation_interval_secs : Option ℤ
  pub grace_period_secs : ℤ
  pub next_rotation_at : Option Bytes
  pub created_at : Bytes
  pub updated_at : Bytes
  pub target : Option RotationTarget

-- the bytes that are sealed, with what is shown of them
pub record Payload : Type 0 where
  pub format : SecretFormat
  pub bytes : Bytes
  pub shown : Shown

abbrev pub max_batch : ℕ
max_batch = 256

abbrev pub is_automatic : SecretKind → Bool
is_automatic manual = false
is_automatic automatic = true

abbrev pub or_else : {A : Type 0} → Option A → Option A → Option A
or_else none other = other
or_else (some a) other = some a

abbrev pub or_default : {A : Type 0} → A → Option A → A
or_default a none = a
or_default a (some b) = b

module _ (s : Site) where
  abbrev pub opaque_payload : Bytes → Payload
  opaque_payload value = record {
    format = opaque;
    bytes = value;
    shown = (some value, (none, none));
  }

  abbrev pub userpass_payload : UserPass → Payload
  userpass_payload up = record {
    format = userpass;
    bytes = s.externals.encode_userpass up;
    shown = (none, (some up.username, some up.password));
  }

  -- a value that is given is checked; an automatic secret without one gets a random token
  abbrev pub given_or_token :
      SecretKind → ApiError → (Bytes → ApiResult (Unit {0})) → Option Bytes → Op s Bytes
  given_or_token kind complaint check (some value) = do checked s (check value); give s value
  given_or_token manual complaint check none = refuse s complaint
  given_or_token automatic complaint check none = draw s s.externals.generate_token

  abbrev pub userpass_create : CreateSecretRequest → Op s Payload
  userpass_create req = do
    username ← elim req.username [
      | none ↦ refuse s (bad_request username_required)
      | some username ↦ give s username
    ]
    checked s (validate_field (codes "username") username)
    password ←
        given_or_token req.kind (bad_request password_required) (validate_field (codes "password"))
          req.password
    give s (userpass_payload (record { username = username; password = password }))

  abbrev pub opaque_create : CreateSecretRequest → Op s Payload
  opaque_create req = do
    value ← given_or_token req.kind (bad_request value_required) validate_value req.value
    give s (opaque_payload value)

  unfoldable pub build_create_payload : CreateSecretRequest → Op s Payload
  unfolding validate_value validate_field
  build_create_payload req =
      if is_some req.username || is_some req.password
      then (if is_some req.value
          then refuse s (bad_request value_and_userpass)
          else userpass_create req)
      else opaque_create req

  unfoldable pub to_metadata : SecretRecord → SecretMetadata
  to_metadata secret = record {
    name = secret.name;
    kind = secret.kind;
    format = secret.format;
    description = secret.description;
    version = secret.current_version;
    rotation_interval_secs = secret.rotation_interval_secs;
    grace_period_secs = secret.grace_secs;
    next_rotation_at = map_option s.externals.rfc3339 secret.next_rotation_at;
    created_at = s.externals.rfc3339 secret.created_at;
    updated_at = s.externals.rfc3339 secret.updated_at;
    target = secret.target;
  }

  abbrev pub or_missing : {A : Type 0} → Option A → Op s A
  or_missing none = refuse s missing
  or_missing (some a) = give s a

  unfoldable pub load_metadata : Bytes → Op s SecretMetadata
  unfolding to_metadata
  load_metadata name = do
    found ← read s (λ db. Engine.secret s.r db name)
    secret ← or_missing found
    give s (to_metadata secret)

  unfoldable pub list_secrets : Op s (List SecretMetadata)
  unfolding to_metadata
  list_secrets = do found ← read s (Engine.list_secrets s.r); give s (map to_metadata found)
