-- ===== src/Api/Manage/Roles.antt =====
-- manage.rs: the built-in role, and the rules of roles.
use hyperion_vault.Prelude.{
  ◌≡◌, refl, inl, inr, List, [], ◌∷◌, true, false, none, some, arith, Bytes, ℤ, Option-cases, All,
  bytes_eq_iff, length, ◌==◌,
}
use hyperion_vault.Core.Rbac
use hyperion_vault.Core.Rbac.{Rule}
use hyperion_vault.Store.Model.{RoleRecord, ok}
use hyperion_vault.Store.Redb.{Storage}
use hyperion_vault.Store.Db.{Db, StoreResult-cases}
use hyperion_vault.Store.Apply.{apply_command}
use hyperion_vault.Store.Apply.Access
use hyperion_vault.Store.Apply.Access.{scan_tokens}
use hyperion_vault.Store.Engine
use hyperion_vault.Api.Error.{Settings, ApiResult-cases, done}
use hyperion_vault.Api.Manage
use hyperion_vault.Api.Manage.{
  RoleInfo, CreateRoleRequest, validate_permissions, validate_role_name, builtin_admin_role,
  to_role_info,
}

-- a rule with an action that is known, and with a path
abbrev pub ValidRule : Rule → Type 0
ValidRule rule = (Rbac.is_valid_action rule.0 ≡ true) × ((length rule.1 == 0) ≡ false)

pub validate_permissions-All :
    (rules : List Rule) → validate_permissions rules ≡ done tt → All ValidRule rules
unfolding validate_permissions
validate_permissions-All [] h = tt
validate_permissions-All (rule ∷ rules) h =
    ((ground arith, ground arith), validate_permissions-All rules (ground arith))

module _ (r : Storage) (settings : Settings) (now : ℤ) (rfc3339 : ℤ → Bytes) where
  -- The handler that deletes roles never changes the row of the built-in role, whatever name it is
  -- given and whatever it answers.
  pub delete_role-admin :
      (name : Bytes) (db : Db r)
      → r.str.get (Manage.delete_role r settings now rfc3339 name db).1.roles builtin_admin_role
        ≡ r.str.get db.roles builtin_admin_role
  unfolding Manage.delete_role Engine.apply apply_command Access.delete_role
  delete_role-admin name db =
      elim (StoreResult-cases (scan_tokens r.codecs.token name (r.str.iter db.tokens))) [
        | inr (e, bad) ↦ ground (arith, r.str.get-remove db.roles name builtin_admin_role)
        | inl (_, clear) ↦ ground (arith, r.str.get-remove db.roles name builtin_admin_role)
      ]

  -- A role that the handler has created was not there before, has the permissions and the flag of the
  -- request, reads as the answer says, and all its rules are valid.
  pub role-create_role :
      (req : CreateRoleRequest) (db : Db r) (info : RoleInfo)
      → let (res, after) = Manage.create_role r settings now rfc3339 req db in
        res ≡ done info
        → (role : RoleRecord) × (Engine.role r after req.name ≡ ok (some role))
          × (role.permissions ≡ req.permissions)
          × (role.is_admin ≡ req.is_admin)
          × (info ≡ to_role_info r settings now rfc3339 role)
          × All ValidRule req.permissions
          × (Engine.role r db req.name ≡ ok none)
  unfolding Manage.create_role Engine.apply Engine.role apply_command Access.create_role
  role-create_role req db info h = elim (ApiResult-cases (validate_role_name req.name)) [
    | inr (e, bad) ↦ absurd (ground arith)
    | inl (_, named) ↦ elim (ApiResult-cases (validate_permissions req.permissions)) [
      | inr (e, bad) ↦ absurd (ground arith)
      | inl (_, valid) ↦ elim (Option-cases (r.str.get db.roles req.name)) [
        | inr (row, taken) ↦ absurd (ground arith)
        | inl free ↦ elim (Option-cases (r.codecs.role.encode role_of)) [
          | inl bad ↦ absurd (ground arith)
          | inr (row, w) ↦ (
            role_of,
            ground (
              arith,
              r.str.get-insert db.roles req.name req.name row,
              bytes_eq_iff req.name req.name,
              r.codecs.role.decode-encode role_of row w,
            ),
            refl,
            refl,
            ground arith,
            validate_permissions-All req.permissions (ground arith),
            ground arith,
          )
        ]
      ]
    ]
  ]
    where
      role_of : RoleRecord
      role_of = record {
        name = req.name;
        description = req.description;
        is_admin = req.is_admin;
        permissions = req.permissions;
        created_at = now;
      }
