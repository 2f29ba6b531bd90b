-- ===== src/Api/Tests.antt =====
-- The theorems on requests at concrete inputs, on the sample tables.
use hyperion_vault.Prelude.{
  ◌-◌, ◌≡◌, refl, ◌≤◌, [], ◌∷◌, true, false, ◌&&◌, none, some, arith, Bytes, ℤ, pos, ◌+ℤ◌, ltb_ℤ,
  leb, ltb, wrap_i64, if◌then◌else◌, codes, All, is_some, length, bytes_eq,
}
use hyperion_vault.Core.Rbac
use hyperion_vault.Store.Model.{TokenRecord, RoleRecord, LockoutRecord, ok, add_token, revoke_token}
use hyperion_vault.Store.Redb.{lookup}
use hyperion_vault.Store.Redb.Sample.{sample}
use hyperion_vault.Store.Db.{Db}
use hyperion_vault.Store.Apply.{apply_command}
use hyperion_vault.Store.Apply.Access
use hyperion_vault.Store.Engine
use hyperion_vault.Store.Engine.{admin_name, admin_role}
use hyperion_vault.Api.Error.{v4, done, refused, too_many_requests, unauthorized}
use hyperion_vault.Api.Lockout.{check_key, record_key, check}
use hyperion_vault.Api.Lockout.Burst.{record_key-other, check_key-failing, failing}
use hyperion_vault.Api.Authz.{AdminActor}
use hyperion_vault.Api.Guards.{
  Parts, admin_actor, bearer_token, peer_ip, client_ip, actor_of, strip_prefix, trim,
}
use hyperion_vault.Api.Guards.Tokens.{
  Powers, admin_actor-done, admin_actor-revoke_token, admin_actor-add_token,
}
use hyperion_vault.Api.DekCache.{new, put, get, enabled, max_entries, put_bounded, get-put}
use hyperion_vault.Api.Manage
use hyperion_vault.Api.Manage.{
  RoleInfo, CreateRoleRequest, to_role_info, builtin_admin_role, validate_role_name,
  validate_permissions, blank,
}
use hyperion_vault.Api.Sample.{outside, settings}
use hyperion_vault.Api.Manage.Roles.{ValidRule, delete_role-admin, role-create_role}

abbrev key : Bytes
key = codes "k"

encodes : (lock : LockoutRecord) → is_some (sample.codecs.lockout.encode lock) ≡ true
unfolding sample
encodes lock = refl

record_key-other_example :
    let after = (record_key sample settings (pos 7) key (Engine.empty_db sample)).1 in
    (after ≡ record (Engine.empty_db sample) { lockouts = after.lockouts })
    × ((check_key sample settings (pos 8) [] after).0
        ≡ (check_key sample settings (pos 8) [] (Engine.empty_db sample)).0)
record_key-other_example =
    record_key-other sample settings (pos 7) (pos 8) key [] (Engine.empty_db sample) (λ e. cc)

check_key-failing_example :
    (check_key sample settings (pos 40) key (
      failing sample settings
        (pos 7)
        key
        (omega arith)
        (ground arith)
        encodes
        3
        (Engine.empty_db sample))).0
    ≡ (if leb 3 3 && ltb_ℤ (pos 40) (wrap_i64 (pos 7 +ℤ pos 60))
        then refused too_many_requests
        else done tt)
unfolding sample lookup Engine.empty_db
check_key-failing_example =
    check_key-failing sample settings (pos 7) key (omega arith) (ground arith) encodes (pos 40) 3
      (Engine.empty_db sample) (omega arith) refl

abbrev token : TokenRecord
token = record {
  name = codes "ci";
  role = some admin_name;
  fingerprint = codes "tok";
  created_at = pos 1;
  last_used_at = none;
  revoked_at = none;
}

abbrev with_admin : Db sample
with_admin = (Engine.seed_admin_role sample (Engine.empty_db sample)).1

abbrev with_token : Db sample
with_token = (Engine.apply sample 1 (add_token token) with_admin).1

abbrev parts : Parts
parts = record {
  authorization = some (codes "Bearer tok");
  forwarded_for = none;
  connection = some (v4 5);
}

token_added : (Engine.apply sample 1 (add_token token) with_admin).0 ≡ ok tt
unfolding sample lookup Engine.seed_admin_role Engine.empty_db Engine.apply apply_command
    Access.add_token
token_added = refl

bears : bearer_token parts ≡ some (codes "tok")
unfolding bearer_token trim strip_prefix
bears = refl

admin_there : Engine.role sample with_admin admin_name ≡ ok (some admin_role)
unfolding sample lookup Engine.role Engine.seed_admin_role Engine.empty_db bytes_eq
admin_there = refl

open_peer : (check sample outside settings (pos 9) (peer_ip parts) with_token).0 ≡ done tt
unfolding sample lookup check Engine.seed_admin_role Engine.empty_db Engine.apply apply_command
    Access.add_token peer_ip
open_peer = refl

admin_actor-add_token_example :
    (admin_actor sample outside settings (pos 9) parts with_token).0
    ≡ done (actor_of sample outside settings (pos 9) parts token (true, []))
admin_actor-add_token_example =
    admin_actor-add_token sample outside settings (pos 9) token (codes "tok") admin_name admin_role
      parts with_admin refl refl refl admin_there token_added bears open_peer

abbrev actor : AdminActor
actor = actor_of sample outside settings (pos 9) parts token (true, [])

accepted : (admin_actor sample outside settings (pos 9) parts with_token).0 ≡ done actor
accepted =
    admin_actor-add_token sample outside settings (pos 9) token (codes "tok") admin_name admin_role
      parts with_admin refl refl refl admin_there token_added bears open_peer

admin_actor-done_example :
    (text : Bytes) × (record_of : TokenRecord) × ((check sample outside settings
        (pos 9)
        (peer_ip parts)
        with_token).0
      ≡ done tt)
    × (bearer_token parts ≡ some text)
    × (Engine.token_by_fingerprint sample with_token text ≡ ok (some record_of))
    × (record_of.revoked_at ≡ none)
    × (actor.name ≡ record_of.name)
    × Powers sample outside settings (pos 9) with_token record_of.role (true, [])
    × (actor.peer_ip ≡ peer_ip parts)
    × (actor.client_ip ≡ client_ip outside parts false)
admin_actor-done_example =
    admin_actor-done sample outside settings (pos 9) parts with_token actor accepted

abbrev with_revoked : Db sample
with_revoked = (Engine.apply sample 1 (revoke_token (codes "ci") (pos 8)) with_token).1

admin_actor-revoke_token_example :
    (admin_actor sample outside settings (pos 9) parts with_revoked).0 ≡ refused unauthorized
unfolding sample lookup check Engine.seed_admin_role Engine.empty_db Engine.apply apply_command
    Access.add_token Access.revoke_token bytes_eq peer_ip
admin_actor-revoke_token_example =
    admin_actor-revoke_token sample outside settings (pos 9) (codes "ci") (codes "tok") (pos 8)
      parts with_token refl refl bears refl

put_bounded_example : length (put (new 5) key key 7).map ≤ max_entries
unfolding new
put_bounded_example = put_bounded (new 5) key key 7 (omega arith)

get-put_example :
    (get (put (new 5) key key 7) key 9).0
    ≡ (if enabled (new 5) && ltb (9 - 7) (new 5).ttl then some key else none)
get-put_example = get-put (new 5) key key 7 9

abbrev printed : ℤ → Bytes
printed at = []

delete_role-admin_example :
    sample.str.get
      (Manage.delete_role sample settings (pos 9) printed admin_name with_admin).1.roles
      builtin_admin_role
    ≡ sample.str.get with_admin.roles builtin_admin_role
delete_role-admin_example = delete_role-admin sample settings (pos 9) printed admin_name with_admin

abbrev request : CreateRoleRequest
request = record {
  name = codes "ops";
  description = none;
  is_admin = false;
  permissions = (codes "*", codes "db/*") ∷ [];
}

abbrev info : RoleInfo
info = record {
  name = codes "ops";
  description = none;
  is_admin = false;
  permissions = (codes "*", codes "db/*") ∷ [];
  created_at = [];
}

role_created : (Manage.create_role sample settings (pos 9) printed request with_admin).0 ≡ done info
unfolding sample lookup Manage.create_role to_role_info Engine.seed_admin_role Engine.empty_db
    Engine.apply apply_command Access.create_role Rbac.is_valid_action bytes_eq
role_created = refl

role-create_role_example :
    let after = (Manage.create_role sample settings (pos 9) printed request with_admin).1 in
    (role : RoleRecord) × (Engine.role sample after (codes "ops") ≡ ok (some role))
    × (role.permissions ≡ request.permissions)
    × (role.is_admin ≡ false)
    × (info ≡ to_role_info sample settings (pos 9) printed role)
    × All ValidRule request.permissions
    × (Engine.role sample with_admin (codes "ops") ≡ ok none)
role-create_role_example =
    role-create_role sample settings (pos 9) printed request with_admin info role_created
