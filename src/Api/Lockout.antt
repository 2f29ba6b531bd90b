-- ===== src/Api/Lockout.antt =====
-- lockout.rs: failures are counted by key, and a key with too many of them is refused for a while.
pub mod Burst
use hyperion_vault.Prelude.{
  ℕ, [], ◌∷◌, ◌++◌, Bool, true, false, Option, none, some, Bytes, ℤ, ltb_ℤ, ◌==◌, if◌then◌else◌,
  codes,
}
use hyperion_vault.Store.Model.{LockoutRecord, FailureReport, record_auth_failure}
use hyperion_vault.Store.Redb.{Storage}
use hyperion_vault.Store.Engine
use hyperion_vault.Api.Error.{
  IpAddr, Outside, Settings, ApiError, too_many_requests, ApiResult, done, refused, Handler,
  proceed, ◌>>=◌, ◌>>◌, give, refuse, read, try_apply,
}

-- whether the lock is still on
abbrev pub locked_at : ℤ → Option LockoutRecord → Bool
locked_at now none = false
locked_at now (some lock) = elim lock.locked_until [ none ↦ false | some until ↦ ltb_ℤ now until ]

abbrev pub report : Settings → ℤ → Bytes → FailureReport
report settings now key = record {
  key = key;
  now = now;
  max = settings.auth_max_failures;
  window_secs = settings.auth_window_secs;
  lockout_secs = settings.auth_lockout_secs;
}

unfoldable pub verify_key : Outside → IpAddr → Bytes → Bytes
verify_key outside peer secret = codes "verify:" ++ (outside.ip_text peer ++ b':' ∷ secret)

module _ (r : Storage) (settings : Settings) (now : ℤ) where
  unfoldable pub check_key : Bytes → Handler r (Unit {0})
  unfolding Engine.lockout
  check_key key = if settings.auth_max_failures == 0 then give r tt else do
    found ← read r (λ db. Engine.lockout r db key)
    if locked_at now found then refuse r too_many_requests else give r tt

  unfoldable pub record_key : Bytes → Handler r (Unit {0})
  unfolding Engine.apply
  record_key key =
      if settings.auth_max_failures == 0
      then give r tt
      else try_apply r settings (record_auth_failure (report settings now key))

module _ (r : Storage) (outside : Outside) (settings : Settings) (now : ℤ) where
  unfoldable pub check_ip : IpAddr → Handler r (Unit {0})
  unfolding check_key
  check_ip ip = check_key r settings now (outside.ip_text ip)

  unfoldable pub check : Option IpAddr → Handler r (Unit {0})
  unfolding check_ip
  check ip =
      if settings.auth_max_failures == 0
      then give r tt
      else elim ip [ none ↦ give r tt | some ip ↦ check_ip ip ]

  unfoldable pub record_ip : Option IpAddr → Handler r (Unit {0})
  unfolding record_key
  record_ip none = give r tt
  record_ip (some ip) = record_key r settings now (outside.ip_text ip)

  unfoldable pub check_verify : IpAddr → Bytes → Handler r (Unit {0})
  unfolding check_key
  check_verify peer secret = check_key r settings now (verify_key outside peer secret)

  unfoldable pub record_verify : IpAddr → Bytes → Handler r (Unit {0})
  unfolding record_key
  record_verify peer secret = record_key r settings now (verify_key outside peer secret)
