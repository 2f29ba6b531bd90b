-- ===== src/Store/Apply/Access.antt =====
-- store/apply.rs: the commands on roles, tokens and authentication failures.
use hyperion_vault.Prelude.{
  ◌+◌, ◌%◌, ◌^◌, List, [], ◌∷◌, Bool, false, not, Option, none, some, Bytes, ℤ, ◌+ℤ◌, ◌-ℤ◌, leb_ℤ,
  leb, wrap_i64, bytes_eq, if◌then◌else◌, is_some,
}
use hyperion_vault.Core.Rbac.{Rule}
use hyperion_vault.Store.Model.{
  RoleRecord, TokenRecord, LockoutRecord, FailureReport, not_found, conflict, role_exists,
  role_has_tokens, fingerprint_exists, token_exists, internal, StoreResult, ok, err,
}
use hyperion_vault.Store.Redb.{Storage, Codec}
use hyperion_vault.Store.Db.{
  Tx, ◌>>=◌, ◌>>◌, pure, fail, of_result, gets, modify, find_role, put_role, find_token, put_token,
  find_lockout, put_lockout,
}

-- whether a token's role is the named one: `token.role.as_deref() == Some(name)`
abbrev pub has_role : Bytes → Option Bytes → Bool
has_role name none = false
has_role name (some role) = bytes_eq role name

-- The loop over the tokens: it stops at a token of the role, and at a row that does not decode.
unfoldable pub scan_tokens :
    Codec TokenRecord → Bytes → List (Bytes × Bytes) → StoreResult (Unit {0})
scan_tokens codec name [] = ok tt
scan_tokens codec name (row ∷ rows) =
    let rest = scan_tokens codec name rows in
    elim (codec.decode row.1) [
      | none ↦ err internal
      | some token ↦
          if has_role name token.role then err (conflict (role_has_tokens name)) else rest
    ]

-- the count starts again when the window has passed
abbrev pub reopened : FailureReport → LockoutRecord → LockoutRecord
reopened report lock =
    if leb_ℤ report.window_secs (wrap_i64 (report.now -ℤ lock.window_start))
    then record lock { failures = 0; window_start = report.now }
    else lock

unfoldable pub count_failure : FailureReport → LockoutRecord → LockoutRecord
count_failure report lock =
    let counted = record (reopened report lock) {
      failures = ((reopened report lock).failures + 1) % 2 ^ 32;
    } in
    if leb report.max counted.failures
    then record counted { locked_until = some (wrap_i64 (report.now +ℤ report.lockout_secs)) }
    else counted

abbrev pub first_failure : FailureReport → LockoutRecord
first_failure report = record { failures = 0; window_start = report.now; locked_until = none }

abbrev pub lock_or_first : FailureReport → Option LockoutRecord → LockoutRecord
lock_or_first report none = first_failure report
lock_or_first report (some lock) = lock

module _ (r : Storage) where
  unfoldable pub create_role : RoleRecord → Tx r (Unit {0})
  create_role role = do
    present ← gets r (λ db. is_some (r.str.get db.roles role.name))
    if present then fail r (conflict (role_exists role.name)) else put_role r role.name role

  unfoldable pub set_permissions : Bytes → List Rule → Tx r (Unit {0})
  set_permissions name permissions = do
    found ← find_role r name
    elim found [
      | none ↦ fail r not_found
      | some role ↦ put_role r name (record role { permissions = permissions })
    ]

  unfoldable pub delete_role : Bytes → Tx r (Unit {0})
  delete_role name = do
    rows ← gets r (λ db. r.str.iter db.tokens)
    of_result r (scan_tokens r.codecs.token name rows)
    present ← gets r (λ db. is_some (r.str.get db.roles name))
    if not present
        then fail r not_found
        else modify r (λ db. record db { roles = r.str.remove db.roles name })

  unfoldable pub add_token : TokenRecord → Tx r (Unit {0})
  add_token token = do
    known ← gets r (λ db. is_some (r.str.get db.tokens token.fingerprint))
    named ← gets r (λ db. is_some (r.str.get db.tokens_by_name token.name))
    if known
        then fail r (conflict fingerprint_exists)
        else if named
        then fail r (conflict (token_exists token.name))
        else do
          modify r (λ db. record db {
            tokens_by_name = r.str.insert db.tokens_by_name token.name token.fingerprint;
          })
          put_token r token.fingerprint token

  unfoldable pub revoke_token : Bytes → ℤ → Tx r (Unit {0})
  revoke_token name revoked_at = do
    indexed ← gets r (λ db. r.str.get db.tokens_by_name name)
    elim indexed [
      | none ↦ fail r not_found
      | some fingerprint ↦ do
        found ← find_token r fingerprint
        elim found [
          | none ↦ fail r not_found
          | some token ↦
              if is_some token.revoked_at
              then fail r not_found
              else put_token r fingerprint (record token { revoked_at = some revoked_at })
        ]
    ]

  unfoldable pub touch_token : Bytes → ℤ → Tx r (Unit {0})
  touch_token fingerprint at = do
    found ← find_token r fingerprint
    elim found [
      | none ↦ pure r tt
      | some token ↦ put_token r fingerprint (record token { last_used_at = some at })
    ]

  unfoldable pub record_auth_failure : FailureReport → Tx r (Unit {0})
  unfolding count_failure
  record_auth_failure report = do
    found ← find_lockout r report.key
    put_lockout r report.key (count_failure report (lock_or_first report found))
