-- ===== src/Service/Rotate.antt =====
-- service.rs and pg_apply.rs: rotation, and the new password on the PostgreSQL servers.
use hyperion_vault.Prelude.{
  ℕ, List, [], ◌∷◌, ◌++◌, Bool, true, false, Option, none, some, Bytes, ℤ, pos, ◌-◌, eqb_ℤ,
  if◌then◌else◌, codes, any, bytes_eq, ◌==◌,
}
use hyperion_vault.Core.Names.{opaque, userpass}
use hyperion_vault.Core.Rotation.{next_rotation_unix, grace_expiry_unix, next_version}
use hyperion_vault.Store.Model
use hyperion_vault.Store.Model.{
  SecretRecord, VersionRecord, RotationTarget, PgRoleTarget, pg_replica, NextRotation, keep, to,
  MetaUpdate,
}
use hyperion_vault.Store.Engine
use hyperion_vault.Api.Error.{IpAddr, not_automatic, broken, bad_request, ApiResult, done, refused}
use hyperion_vault.Service.Site.{
  UserPass, Site, Op, ◌>>=◌, ◌>>◌, or_broken, give, refuse, checked, read, apply, try_apply, draw,
}
use hyperion_vault.Service.Check.{check_target, split_hostport}
use hyperion_vault.Service.Seal.{Shown, audit, seal_version, open_version, decode_userpass}
use hyperion_vault.Service.Handlers.{load_userpass, or_too_many, value_of}
use hyperion_vault.Service.Secrets.{
  SecretValue, Payload, is_automatic, or_default, opaque_payload, userpass_payload, or_missing,
}

abbrev pub max_login_candidates : ℕ
max_login_candidates = 4

abbrev pub apply_retry_secs : ℤ
apply_retry_secs = pos 60

unfoldable pub truncate : {A : Type 0} → ℕ → List A → List A
truncate n [] = []
truncate n (x ∷ xs) = if n == 0 then [] else x ∷ truncate (n - 1) xs

-- the versions that are tried: the one before, then the live ones, none twice
unfoldable pub push_versions : List ℤ → List VersionRecord → List ℤ
push_versions versions [] = versions
push_versions versions (row ∷ rows) =
    if any (λ v. eqb_ℤ v row.version) versions
    then push_versions versions rows
    else push_versions (versions ++ (row.version ∷ [])) rows

abbrev replaced : ℤ → SecretRecord → MetaUpdate
replaced now secret = record {
  set_description = none;
  set_rotation_interval_secs = none;
  set_grace_secs = none;
  next_rotation_at =
      to (some (next_rotation_unix now (or_default (pos 0) secret.rotation_interval_secs)));
  updated_at = now;
}

-- what a rotation has to do outside: a target, for a user with a password
abbrev applies_to : SecretRecord → Option RotationTarget
applies_to secret = elim secret.format [ opaque ↦ none | userpass ↦ secret.target ]

abbrev login_of : Shown → UserPass
login_of shown = record { username = or_default [] shown.1.0; password = or_default [] shown.1.1 }

module _ (s : Site) (now : ℤ) (tick : ℕ) where
  -- the loop of `apply_password` over the servers: the first primary ends it
  unfoldable pub try_hosts : PgRoleTarget → List Bytes → UserPass → Bytes → Bytes → Op s Bool
  unfolding split_hostport
  try_hosts pg [] login role new_password vault = (done false, vault)
  try_hosts pg (hostport ∷ rest) login role new_password vault =
      let (host, port) = split_hostport hostport in
      let (answer, world) =
        s.externals.try_rotate host port pg.database login.username login.password role new_password
          vault.world in
      let later = try_hosts pg rest login role new_password (record vault { world = world }) in
      elim answer [
        | none ↦ later
        | some primary ↦ if primary then (done true, record vault { world = world }) else later
      ]

  -- `apply_password`: whether it was done
  unfoldable pub apply_password : PgRoleTarget → UserPass → Bytes → Bytes → Op s Bool
  unfolding check_target try_hosts
  apply_password pg login role new_password = elim (check_target s.target_hosts pg) [
    | refused _ ↦ give s false
    | done _ ↦ try_hosts pg pg.hosts login role new_password
  ]

  -- the loop over the logins: the first that works ends it
  unfoldable pub try_logins : PgRoleTarget → List UserPass → Bytes → Bytes → Op s (Unit {0})
  unfolding apply_password
  try_logins pg [] role new_password = refuse s broken
  try_logins pg (login ∷ logins) role new_password = do
    applied ← apply_password pg login role new_password
    if applied then give s tt else try_logins pg logins role new_password

  unfoldable pub load_current_userpass : Bytes → Op s UserPass
  unfolding open_version decode_userpass Engine.current_version
  load_current_userpass name = do
    found ← read s (λ db. Engine.current_version s.r db name)
    pair ← checked s (or_broken found)
    plaintext ← open_version s tick name pair.1.version pair.1
    checked s (decode_userpass s plaintext)

  abbrev login_at : Bytes → ℤ → Option VersionRecord → Op s (List UserPass)
  login_at name version none = give s []
  login_at name version (some row) = do
    plaintext ← open_version s tick name version row
    give s (elim (s.externals.decode_userpass plaintext) [ none ↦ [] | some login ↦ login ∷ [] ])

  unfoldable pub logins_of : Bytes → List ℤ → Op s (List UserPass)
  unfolding open_version Engine.version
  logins_of name [] = give s []
  logins_of name (version ∷ versions) = do
    found ← read s (λ db. Engine.version s.r db name version)
    first ← login_at name version found
    rest ← logins_of name versions
    give s (first ++ rest)

  unfoldable pub self_login_candidates : Bytes → ℤ → Op s (List UserPass)
  unfolding push_versions truncate logins_of Engine.live_versions
  self_login_candidates name previous_version = do
    live ← read s (λ db. Engine.live_versions s.r db name now)
    logins_of name (truncate max_login_candidates (push_versions (previous_version ∷ []) live))

  abbrev logins_for : Bytes → ℤ → Option Bytes → Op s (List UserPass)
  logins_for name previous_version none = self_login_candidates name previous_version
  logins_for name previous_version (some login) =
      if bytes_eq login name
      then self_login_candidates name previous_version
      else (load_current_userpass login >>= (λ up. give s (up ∷ [])))

  unfoldable pub apply_target : Bytes → ℤ → RotationTarget → UserPass → Op s (Unit {0})
  unfolding self_login_candidates load_current_userpass try_logins
  apply_target name previous_version (pg_replica pg) up = do
    logins ← logins_for name previous_version pg.login_secret
    try_logins pg logins (or_default up.username pg.role) up.password

  unfoldable pub schedule_apply_retry : Bytes → ℤ → Op s (Unit {0})
  unfolding next_rotation_unix
  schedule_apply_retry name current_version = try_apply s (
      Model.update_meta name current_version (record {
        set_description = none;
        set_rotation_interval_secs = none;
        set_grace_secs = none;
        next_rotation_at = to (some (next_rotation_unix now apply_retry_secs));
        updated_at = now;
      }))

  unfoldable pub rotated_payload : SecretRecord → Bytes → Op s Payload
  unfolding load_userpass
  rotated_payload secret name = elim secret.format [
    | opaque ↦ do value ← draw s s.externals.generate_token; give s (opaque_payload s value)
    | userpass ↦ do
      current ← load_userpass s now tick name secret.current_version
      password ← draw s s.externals.generate_token
      give s (userpass_payload s (record current { password = password }))
  ]

  -- an apply that fails is scheduled again, and its error is the answer
  abbrev when_applied :
      Option Bytes → Option IpAddr → Bytes → ℤ → ApiResult (Unit {0}) → Op s (Unit {0})
  when_applied actor client_ip name new_version (done _) = give s tt
  when_applied actor client_ip name new_version (refused e) = do
    schedule_apply_retry name new_version
    audit s now actor client_ip (codes "rotate") (some name) (codes "apply_failed")
    refuse s e

  unfoldable pub apply_outside :
      Bytes → Option IpAddr → Bytes → SecretRecord → ℤ → Payload → Op s (Unit {0})
  unfolding apply_target schedule_apply_retry audit
  apply_outside actor client_ip name secret new_version payload vault = elim (applies_to secret) [
    | none ↦ (done tt, vault)
    | some target ↦
        let (res, after) =
          apply_target name secret.current_version target (login_of payload.shown) vault in
        when_applied (some actor) client_ip name new_version res after
  ]

  abbrev rotate_automatic : Bytes → Option IpAddr → Bytes → SecretRecord → Op s SecretValue
  rotate_automatic actor client_ip name secret = do
    new_version ← checked s (or_too_many s now tick (next_version secret.current_version))
    payload ← rotated_payload secret name
    version ← seal_version s now name new_version payload.bytes
    apply s (
        Model.put_version name secret.current_version version
          (some (grace_expiry_unix now secret.grace_secs)) (replaced now secret))
    apply_outside actor client_ip name secret new_version payload
    audit s now (some actor) client_ip (codes "rotate") (some name) (codes "ok")
    give s (
        value_of s now (record secret { name = name; format = secret.format }) new_version now
          payload.shown)

  unfoldable pub rotate : Bytes → Option IpAddr → Bytes → Op s SecretValue
  unfolding next_version rotated_payload seal_version grace_expiry_unix next_rotation_unix
      apply_outside audit Engine.secret
  rotate actor client_ip name = do
    found ← read s (λ db. Engine.secret s.r db name)
    secret ← or_missing s found
    if is_automatic secret.kind
        then rotate_automatic actor client_ip name secret
        else refuse s (bad_request not_automatic)
