-- ===== src/Api/Lockout/Burst.antt =====
-- What counted failures do to later checks of their key, and of the other keys.
use hyperion_vault.Prelude.{
  ℕ, zero, suc, ◌^◌, ◌<◌, ◌≤◌, ◌≡◌, ◌≢◌, refl, ap, ◌∙◌, ◌⊎◌, inl, inr, true, ◌&&◌, Option, none,
  some, arith, Bytes, ℤ, pos, ◌+ℤ◌, ◌-ℤ◌, ◌<ℤ◌, ltb_ℤ, leb, wrap_i64, wrap_i64_self, -ℤ_parts,
  bytes_eq_iff, if◌then◌else◌, is_some, All, Option-cases,
}
use hyperion_vault.Core.Aad.{last_separator}
use hyperion_vault.Store.Model.{LockoutRecord, ok}
use hyperion_vault.Store.Redb.{Storage}
use hyperion_vault.Store.Db.{Db}
use hyperion_vault.Store.Apply.{apply_command}
use hyperion_vault.Store.Apply.Access
use hyperion_vault.Store.Apply.Access.{count_failure, lock_or_first}
use hyperion_vault.Store.Engine
use hyperion_vault.Api.Error.{IpAddr, Outside, Settings, too_many_requests, done, refused}
use hyperion_vault.Api.Lockout.{check_key, record_key, verify_key, report}

-- The key of a failed verification is not the key of an address, so the two counters are apart.
verify_key-ne-ip_text :
    (outside : Outside) (peer ip : IpAddr) (secret : Bytes)
    → verify_key outside peer secret ≢ outside.ip_text ip
unfolding verify_key
verify_key-ne-ip_text outside peer ip secret = λ e. (rw (← e) at (outside.ip_text-no_v ip)).0 refl

-- The key of a failed verification determines the address and the secret, if the name of the secret
-- has no colon, though the text of an address may have some.
verify_key_inj :
    (outside : Outside) (a b : IpAddr) (s t : Bytes)
    → All (λ c. c ≢ b':') s
    → All (λ c. c ≢ b':') t
    → verify_key outside a s ≡ verify_key outside b t
    → (a ≡ b) × (s ≡ t)
unfolding verify_key
verify_key_inj outside a b s t hs ht e =
    let (texts, secrets) =
      last_separator b':' (outside.ip_text a) (outside.ip_text b) s t hs ht (cc) in
    let parsed : outside.parse_ip (outside.ip_text a) ≡ outside.parse_ip (outside.ip_text b) =
      ap outside.parse_ip texts in
    (cc (outside.parse_ip-ip_text a, outside.parse_ip-ip_text b), secrets)

module _ (r : Storage) (settings : Settings) where
  -- a check of a key reads the key's row and nothing else
  check_key_ext :
      (later : ℤ) (key : Bytes) (a b : Db r)
      → r.str.get a.lockouts key ≡ r.str.get b.lockouts key
      → (check_key r settings later key a).0 ≡ (check_key r settings later key b).0
  unfolding check_key
  check_key_ext later key a b h = ground (arith, h)

  record_key_rows :
      (now : ℤ) (key other : Bytes) (db : Db r)
      → key ≢ other
      → let after = (record_key r settings now key db).1 in
        (after ≡ record db { lockouts = after.lockouts })
        × (r.str.get after.lockouts other ≡ r.str.get db.lockouts other)
  unfolding record_key apply_command Access.record_auth_failure
  record_key_rows now key other db apart = elim (Option-cases (r.str.get db.lockouts key)) [
    | inl absent ↦ elim (Option-cases (r.codecs.lockout.encode (counted none))) [
      | inl bad ↦ ground arith
      | inr (row, w) ↦
          ground (arith, r.str.get-insert db.lockouts key other row, bytes_eq_iff key other)
    ]
    | inr (found, e) ↦ elim (Option-cases (r.codecs.lockout.decode found)) [
      | inl bad ↦ ground arith
      | inr (lock, d) ↦ elim (Option-cases (r.codecs.lockout.encode (counted (some lock)))) [
        | inl bad ↦ ground arith
        | inr (row, w) ↦
            ground (arith, r.str.get-insert db.lockouts key other row, bytes_eq_iff key other)
      ]
    ]
  ]
    where
      counted : Option LockoutRecord → LockoutRecord
      counted found =
          count_failure (report settings now key) (lock_or_first (report settings now key) found)

  -- A counted failure leaves every table but that of lockouts, and every other key's row there, so
  -- that a check of another key has the result it had before.
  pub record_key-other :
      (now later : ℤ) (key other : Bytes) (db : Db r)
      → key ≢ other
      → let after = (record_key r settings now key db).1 in
        (after ≡ record db { lockouts = after.lockouts })
        × ((check_key r settings later other after).0 ≡ (check_key r settings later other db).0)
  record_key-other now later key other db apart =
      let (same, row) = record_key_rows now key other db apart in
      (same, check_key_ext later other _ db row)

  module _ (now : ℤ) (key : Bytes) (on : 1 ≤ settings.auth_max_failures)
      (window : pos 0 <ℤ settings.auth_window_secs)
      (encodes : (lock : LockoutRecord) → is_some (r.codecs.lockout.encode lock) ≡ true) where
    -- the row after a number of failures at one time
    abbrev burst_row : ℕ → LockoutRecord
    burst_row n = record {
      failures = n;
      window_start = now;
      locked_until =
          if leb settings.auth_max_failures n
          then some (wrap_i64 (now +ℤ settings.auth_lockout_secs))
          else none;
    }

    same_time : wrap_i64 (now -ℤ now) ≡ pos 0
    same_time =
        let zero_diff : now -ℤ now ≡ pos 0 = ground (arith, -ℤ_parts now now) in
        ap wrap_i64 zero_diff ∙ wrap_i64_self (pos 0) (ground arith)

    count_failure-burst_row :
        (n : ℕ)
        → suc n < 2 ^ 32
        → count_failure (report settings now key) (burst_row n) ≡ burst_row (suc n)
    unfolding count_failure
    count_failure-burst_row n fits = ground (arith, same_time)

    record_key_step :
        (n : ℕ) (db : Db r) (found : Option LockoutRecord)
        → suc n < 2 ^ 32
        → Engine.lockout r db key ≡ ok found
        → lock_or_first (report settings now key) found ≡ burst_row n
        → Engine.lockout r (record_key r settings now key db).1 key ≡ ok (some (burst_row (suc n)))
    unfolding record_key apply_command Access.record_auth_failure Engine.lockout
    record_key_step n db found fits e start =
        elim (Option-cases (r.codecs.lockout.encode (burst_row (suc n)))) [
          | inl bad ↦ ground (arith, encodes (burst_row (suc n)))
          | inr (row, w) ↦ ground (
            arith,
            count_failure-burst_row n fits,
            r.str.get-insert db.lockouts key key row,
            bytes_eq_iff key key,
            r.codecs.lockout.decode-encode (burst_row (suc n)) row w,
          )
        ]

    -- a number of failures, one after the other
    abbrev pub failing : ℕ → Db r → Db r
    failing zero db = db
    failing (suc n) db = (record_key r settings now key (failing n db)).1

    abbrev Counted : ℕ → Db r → Type 0
    Counted n db =
        (found : Option LockoutRecord) × (Engine.lockout r db key ≡ ok found)
        × (lock_or_first (report settings now key) found ≡ burst_row n)
        × ((found ≡ none) ⊎ (found ≡ some (burst_row n)))

    failing-Counted :
        (n : ℕ) (db : Db r)
        → n < 2 ^ 32
        → r.str.get db.lockouts key ≡ none
        → Counted n (failing n db)
    unfolding Engine.lockout
    failing-Counted zero db fits free = (none, rw free, ground arith, inl refl)
    failing-Counted (suc n) db fits free =
        let (found, e, start, _) = failing-Counted n db (omega arith) free in
        let next = record_key_step n (failing n db) found (omega arith) e start in
        (some (burst_row (suc n)), next, refl, inr refl)

    -- After a number of failures of one key at one time, on a key with no row, a check of the key is
    -- refused exactly when the number has reached the largest one allowed and the lock is still on.
    -- It is supposed that counting is on, that the window is not empty, that a lockout record can be
    -- encoded and that the number is below 2^32.
    pub check_key-failing :
        (later : ℤ) (n : ℕ) (db : Db r)
        → n < 2 ^ 32
        → r.str.get db.lockouts key ≡ none
        → (check_key r settings later key (failing n db)).0 ≡ (
            if leb settings.auth_max_failures n
              && ltb_ℤ later (wrap_i64 (now +ℤ settings.auth_lockout_secs))
            then refused too_many_requests
            else done tt)
    unfolding check_key
    check_key-failing later n db fits free =
        let (found, e, start, row) = failing-Counted n db fits free in
        elim row [ inl absent ↦ ground arith | inr counted ↦ ground arith ]
