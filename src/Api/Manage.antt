-- ===== src/Api/Manage.antt =====
-- manage.rs: the handlers of roles, tokens and backups, on a node that stands alone. A time is printed
-- by the crate `time`, and a new token is random: both are arguments.
pub mod Roles
use hyperion_vault.Prelude.{
  ℕ, List, [], ◌∷◌, Bool, true, false, ◌&&◌, ◌||◌, not, Option, none, some, Bytes, ℤ, ◌==◌, leb,
  ltb, if◌then◌else◌, is_some, codes, bytes_eq, length, map,
}
use hyperion_vault.Core.Rbac
use hyperion_vault.Core.Rbac.{Rule}
use hyperion_vault.Store.Model
use hyperion_vault.Store.Model.{
  RoleRecord, TokenRecord, AuditEntry, BackupData, append_audit, add_token,
}
use hyperion_vault.Store.Redb.{Storage}
use hyperion_vault.Store.Db.{Db}
use hyperion_vault.Store.Backup.{dump_database, backup_version}
use hyperion_vault.Store.Engine
use hyperion_vault.Api.Error.{
  Outside, Settings, Complaint, bad_role_name, bad_action, empty_path, builtin_role,
  token_name_required, no_such_role, unsupported_backup, ApiError, missing, bad_request, ApiResult,
  done, refused, Handler, proceed, ◌>>=◌, ◌>>◌, give, refuse, read, apply, try_apply, api,
}
use hyperion_vault.Api.Guards.{is_space}

pub record RoleInfo : Type 0 where
  pub name : Bytes
  pub description : Option Bytes
  pub is_admin : Bool
  pub permissions : List Rule
  pub created_at : Bytes

pub record CreateRoleRequest : Type 0 where
  pub name : Bytes
  pub description : Option Bytes
  pub is_admin : Bool
  pub permissions : List Rule

pub record TokenInfo : Type 0 where
  pub name : Bytes
  pub role : Option Bytes
  pub created_at : Bytes
  pub last_used_at : Option Bytes
  pub revoked_at : Option Bytes

pub record TokenCreated : Type 0 where
  pub name : Bytes
  pub role : Bytes
  pub token : Bytes

-- white space of two and of three bytes
abbrev pub wide_two : ℕ → ℕ → Bool
wide_two c d = c == 194 && (d == 133 || d == 160)

abbrev pub wide_three : ℕ → ℕ → ℕ → Bool
wide_three c d e =
    (c == 225 && d == 154 && e == 128)
    || (c == 226 && d == 128 && ((leb 128 e && leb e 138) || e == 168 || e == 169 || e == 175))
    || (c == 226 && d == 129 && e == 159)
    || (c == 227 && d == 128 && e == 128)

-- `trim().is_empty()`: every character is white space
unfoldable pub blank : Bytes → Bool
blank [] = true
blank (c ∷ []) = is_space c
blank (c ∷ d ∷ []) = (is_space c && is_space d) || wide_two c d
blank (c ∷ d ∷ e ∷ s) =
    (is_space c && blank (d ∷ e ∷ s))
    || (wide_two c d && blank (e ∷ s))
    || (wide_three c d e && blank s)

unfoldable pub validate_role_name : Bytes → ApiResult (Unit {0})
unfolding blank
validate_role_name name =
    if blank name || ltb 255 (length name) then refused (bad_request bad_role_name) else done tt

unfoldable pub validate_permissions : List Rule → ApiResult (Unit {0})
validate_permissions [] = done tt
validate_permissions (rule ∷ rules) =
    let rest = validate_permissions rules in
    if not (Rbac.is_valid_action rule.0)
    then refused (bad_request (bad_action rule.0))
    else if length rule.1 == 0
    then refused (bad_request empty_path)
    else rest

abbrev pub builtin_admin_role : Bytes
builtin_admin_role = codes "admin"

abbrev pub after_check :
    {r : Storage} {A : Type 0} → ApiResult (Unit {0}) → Handler r A → Handler r A
after_check (done _) k db = k db
after_check (refused e) k db = (refused e, db)

abbrev pub or_missing : {A : Type 0} → Option A → ApiResult A
or_missing none = refused missing
or_missing (some a) = done a

abbrev pub map_option {ℓ} : {A B : Type ℓ} → (A → B) → Option A → Option B
map_option f none = none
map_option f (some a) = some (f a)

module _ (r : Storage) (settings : Settings) (now : ℤ) (rfc3339 : ℤ → Bytes) where
  unfoldable pub to_role_info : RoleRecord → RoleInfo
  to_role_info role = record {
    name = role.name;
    description = role.description;
    is_admin = role.is_admin;
    permissions = role.permissions;
    created_at = rfc3339 role.created_at;
  }

  unfoldable pub to_token_info : TokenRecord → TokenInfo
  to_token_info token = record {
    name = token.name;
    role = token.role;
    created_at = rfc3339 token.created_at;
    last_used_at = map_option rfc3339 token.last_used_at;
    revoked_at = map_option rfc3339 token.revoked_at;
  }

  -- `audit` of service.rs, without an address: an entry that cannot be written is only logged
  unfoldable pub audit : Bytes → Bytes → Handler r (Unit {0})
  audit actor action = try_apply r settings (
      append_audit (record {
        at = now;
        actor = some actor;
        client_ip = none;
        action = action;
        secret_name = none;
        outcome = codes "ok";
        node_id = 0;
      }))

  unfoldable pub backup : Bytes → Handler r BackupData
  unfolding audit
  backup actor = do
    data_of ← read r (λ db. Model.ok (dump_database r db))
    audit actor (codes "backup")
    give r data_of

  unfoldable pub restore : Bytes → BackupData → Handler r (Unit {0})
  unfolding audit
  restore actor backup_data =
      if not (backup_data.version == backup_version)
      then refuse r (bad_request (unsupported_backup backup_data.version))
      else do store_restore backup_data; audit actor (codes "restore")
    where
      store_restore : BackupData → Handler r (Unit {0})
      store_restore b db = let (res, after) = Engine.restore r b db in (api res, after)

  unfoldable pub create_role : CreateRoleRequest → Handler r RoleInfo
  unfolding validate_role_name validate_permissions
  create_role req = after_check (validate_role_name req.name) (
      after_check (validate_permissions req.permissions) (do
        apply r settings (Model.create_role (role_of req))
        give r (to_role_info (role_of req))))
    where
      role_of : CreateRoleRequest → RoleRecord
      role_of req = record {
        name = req.name;
        description = req.description;
        is_admin = req.is_admin;
        permissions = req.permissions;
        created_at = now;
      }

  unfoldable pub list_roles : Handler r (List RoleInfo)
  unfolding to_role_info
  list_roles = do roles ← read r (λ db. Engine.list_roles r db); give r (map to_role_info roles)

  abbrev pub info_or_missing : Option RoleRecord → Handler r RoleInfo
  info_or_missing none = refuse r missing
  info_or_missing (some role) = give r (to_role_info role)

  unfoldable pub get_role : Bytes → Handler r RoleInfo
  unfolding to_role_info
  get_role name = do found ← read r (λ db. Engine.role r db name); info_or_missing found

  unfoldable pub set_permissions : Bytes → List Rule → Handler r RoleInfo
  unfolding get_role validate_permissions
  set_permissions name permissions =
      after_check (validate_permissions permissions)
        (do apply r settings (Model.set_permissions name permissions); get_role name)

  unfoldable pub delete_role : Bytes → Handler r (Unit {0})
  delete_role name =
      if bytes_eq name builtin_admin_role
      then refuse r (bad_request builtin_role)
      else apply r settings (Model.delete_role name)

  abbrev pub new_token : Outside → Bytes → Bytes → Bytes → TokenRecord
  new_token outside token name role = record {
    name = name;
    role = some role;
    fingerprint = outside.fingerprint token;
    created_at = now;
    last_used_at = none;
    revoked_at = none;
  }

  -- `token` is the random text that is drawn
  unfoldable pub create_token : Outside → Bytes → Bytes → Bytes → Handler r TokenCreated
  unfolding blank
  create_token outside token name role =
      if blank name
      then refuse r (bad_request token_name_required)
      else do found ← read r (λ db. Engine.role r db role); issue (is_some found)
    where
      issue : Bool → Handler r TokenCreated
      issue known = if not known then refuse r (bad_request (no_such_role role)) else do
        apply r settings (add_token (new_token outside token name role))
        give r (record { name = name; role = role; token = token })

  unfoldable pub list_tokens : Handler r (List TokenInfo)
  unfolding to_token_info
  list_tokens = do
    tokens ← read r (λ db. Engine.list_tokens r db)
    give r (map to_token_info tokens)

  unfoldable pub revoke_token : Bytes → Handler r (Unit {0})
  revoke_token name = apply r settings (Model.revoke_token name now)
