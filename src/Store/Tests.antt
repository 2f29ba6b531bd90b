-- ===== src/Store/Tests.antt =====
-- The theorems on the store at concrete inputs, on the sample tables.
use hyperion_vault.Prelude.{
  ℕ, ◌≡◌, ◌≢◌, refl, ap, ◌↔◌, [], false, not, ◌&&◌, none, some, Bytes, pos, ◌≤ℤ◌, IsI32, codes,
  arith, is_some, if◌then◌else◌, bytes_eq, bytes_lt, ltb, ◌==◌, ◌+◌,
}
use hyperion_vault.Core.Names.{is_valid_secret_name, is_valid_secret_version, name_char}
use hyperion_vault.Store.Model.{
  SecretRecord, VersionRecord, version_conflict, conflict, secret_exists, ok, err, create_secret,
}
use hyperion_vault.Store.Redb.{lookup}
use hyperion_vault.Store.Redb.Sample.{sample}
use hyperion_vault.Store.Keys.{
  version_key, version_field, version_from_key, split_version_key, split_once, parse_i32_digits,
}
use hyperion_vault.Core.Decimal.{digits_value}
use hyperion_vault.Store.Keys.Exact.{
  split-version_key, NoZero, split_version_key-some, version_from_key_iff,
}
use hyperion_vault.Store.Db.{max_audit_key}
use hyperion_vault.Store.Engine.{empty_db, secret, then_map}
use hyperion_vault.Store.Apply.{apply_command}
use hyperion_vault.Store.Apply.Secrets
use hyperion_vault.Store.Apply.Upkeep
use hyperion_vault.Store.Backup.{
  dump_database, restore_tables, check_secret_rows, valid_version_key, check_names,
  check_version_keys, check_audit_keys,
}
use hyperion_vault.Store.Atomic.{apply_command-refused_unchanged}
use hyperion_vault.Store.Versions.{delete_exact, put_version_rows, stored, superseded}
use hyperion_vault.Store.Concurrency.{secret-put_version, put_version_excludes, written}
use hyperion_vault.Store.Expiry.{
  expire_exact, dropped, rewrap_rows, rewrap_replay, rewrap, rewrapped_row,
}
use hyperion_vault.Store.Audit.{append_audit_fresh, append_audit_overwrites}
use hyperion_vault.Store.Restore.{restore-dump, restore_accepts_valid, SameRows}
use hyperion_vault.Store.Engine
use hyperion_vault.Store.Current.Runs.{Reachable, Reachable-current_version}
use hyperion_vault.Store.Examples.{
  db_password, secret_row, version_row, no_change, one_secret, two_versions, entry, full_log,
}

abbrev key_one : Bytes
unfolding version_key
key_one = version_key db_password (pos 1)

split_version_key-some_example :
    (version_key db_password (pos 1) ≡ version_key db_password (pos 1))
    × NoZero db_password
    × IsI32 (pos 1)
    × (pos 0 ≤ℤ pos 1)
split_version_key-some_example =
    split_version_key-some (version_key db_password (pos 1)) db_password (pos 1)
      (split-version_key db_password 1 (ground arith) (omega arith))

version_from_key_iff_example :
    (version_from_key db_password (version_key db_password (pos 1)) ≡ some (pos 1))
    ↔ (version_key db_password (pos 1) ≡ version_key db_password (pos 1))
version_from_key_iff_example =
    version_from_key_iff db_password (version_key db_password (pos 1)) 1 (ground arith)
      (omega arith)

-- the runs that the examples start from
second_written :
    (Secrets.put_version sample db_password
      (pos 1)
      (version_row (pos 2))
      (some (pos 130))
      no_change
      one_secret).0
    ≡ ok tt
unfolding sample empty_db Secrets.create Secrets.put_version version_key is_valid_secret_name
    name_char is_valid_secret_version bytes_eq lookup bytes_lt version_field
second_written = refl

keys_differ : version_key db_password (pos 1) ≢ version_key db_password (pos 2)
unfolding version_key version_field bytes_eq
keys_differ = λ e. let clash = ap (bytes_eq key_one) e in cc

expired_done : (Upkeep.expire_grace_versions sample (pos 130) two_versions).0 ≡ ok tt
unfolding sample empty_db Secrets.create Secrets.put_version Upkeep.expire_grace_versions
    version_key is_valid_secret_name name_char is_valid_secret_version bytes_eq lookup bytes_lt
    version_field Upkeep.scan_expired
expired_done = refl

apply_command-refused_unchanged_example :
    (apply_command sample 1 (create_secret secret_row (version_row (pos 1))) one_secret).1
    ≡ one_secret
unfolding sample apply_command Secrets.create empty_db version_key is_valid_secret_name name_char
    is_valid_secret_version bytes_eq
apply_command-refused_unchanged_example =
    apply_command-refused_unchanged sample 1 (create_secret secret_row (version_row (pos 1)))
      one_secret (conflict (secret_exists db_password)) refl (λ e. cc)

delete_exact_example :
    let (res, after) = Secrets.delete sample db_password one_secret in
    (res ≡ ok tt)
    × ((k : Bytes)
        → sample.str.get after.secrets k
          ≡ (if bytes_eq db_password k then none else sample.str.get one_secret.secrets k))
    × ((k : Bytes)
        → sample.str.get after.versions k ≡ (
            if is_some (version_from_key db_password k)
            then none
            else sample.str.get one_secret.versions k))
unfolding sample empty_db Secrets.create version_key is_valid_secret_name name_char
    is_valid_secret_version bytes_eq lookup
delete_exact_example = delete_exact sample db_password one_secret refl

put_version_rows_example : stored sample two_versions key_one ≡ (
    if bytes_eq (version_key db_password (pos 2)) key_one
    then ok (some (version_row (pos 2)))
    else if bytes_eq (version_key db_password (pos 1)) key_one
    then then_map (superseded sample (some (pos 130))) (stored sample one_secret key_one)
    else stored sample one_secret key_one)
put_version_rows_example =
    put_version_rows sample db_password (pos 1) (version_row (pos 2)) (some (pos 130)) no_change
      one_secret key_one second_written keys_differ

secret-put_version_example :
    (old : SecretRecord) × (secret sample one_secret db_password ≡ ok (some old))
    × (old.current_version ≡ pos 1)
    × (secret sample two_versions db_password
        ≡ ok (some (written sample old (version_row (pos 2)) no_change)))
secret-put_version_example =
    secret-put_version sample db_password (pos 1) (version_row (pos 2)) (some (pos 130)) no_change
      one_secret second_written

put_version_excludes_example :
    (Secrets.put_version sample db_password
        (pos 1)
        (version_row (pos 3))
        none
        no_change
        two_versions
      ≡ (err version_conflict, two_versions))
    × (Secrets.update_meta sample db_password (pos 1) no_change two_versions
        ≡ (err version_conflict, two_versions))
unfolding is_valid_secret_version
put_version_excludes_example =
    put_version_excludes sample db_password (pos 1) (version_row (pos 2)) (version_row (pos 3))
      (some (pos 130)) none no_change no_change one_secret second_written (λ e. cc) refl

expire_exact_example :
    stored sample (Upkeep.expire_grace_versions sample (pos 130) two_versions).1 key_one
    ≡ then_map (dropped (pos 130)) (stored sample two_versions key_one)
expire_exact_example = expire_exact sample (pos 130) two_versions key_one expired_done

abbrev data_key : Bytes
data_key = codes "w2"

rewrap_done :
    (Upkeep.rewrap_version sample db_password (pos 1) data_key data_key (pos 7) one_secret).0
    ≡ ok tt
unfolding sample empty_db Secrets.create Upkeep.rewrap_version version_key is_valid_secret_name
    name_char is_valid_secret_version bytes_eq lookup bytes_lt version_field
rewrap_done = refl

rewrap_rows_example :
    stored sample (rewrap sample db_password (pos 1) data_key data_key (pos 7) one_secret).1 key_one
    ≡ (if bytes_eq (version_key db_password (pos 1)) key_one
        then then_map
            (rewrapped_row sample db_password (pos 1) data_key data_key (pos 7) one_secret)
            (stored sample one_secret key_one)
        else stored sample one_secret key_one)
rewrap_rows_example =
    rewrap_rows sample db_password (pos 1) data_key data_key (pos 7) one_secret key_one rewrap_done

rewrap_replay_example :
    Upkeep.rewrap_version sample db_password
      (pos 1)
      []
      []
      (pos 6)
      (rewrap sample db_password (pos 1) data_key data_key (pos 7) one_secret).1
    ≡ (ok tt, (rewrap sample db_password (pos 1) data_key data_key (pos 7) one_secret).1)
rewrap_replay_example =
    rewrap_replay sample db_password (pos 1) data_key data_key (pos 7) one_secret [] [] (pos 6)
      rewrap_done (ground arith)

append_audit_fresh_example :
    let after = (Upkeep.append_audit sample 3 entry (empty_db sample)).1 in
    (key : ℕ) × (row : Bytes) × (sample.num.get (empty_db sample).audit key ≡ none)
    × (sample.codecs.audit.encode (record entry { node_id = 3 }) ≡ some row)
    × ((k : ℕ)
        → sample.num.get after.audit k
          ≡ (if key == k then some row else sample.num.get (empty_db sample).audit k))
unfolding sample empty_db Upkeep.append_audit lookup
append_audit_fresh_example = append_audit_fresh sample (empty_db sample) 3 entry refl refl

append_audit_overwrites_example :
    sample.num.get
      (Upkeep.append_audit sample 3 entry (Upkeep.append_audit sample 3 entry full_log).1).1.audit
      (max_audit_key + 1)
    ≡ (if (max_audit_key + 1) == (max_audit_key + 1)
        then sample.codecs.audit.encode (record entry { node_id = 3 })
        else sample.num.get full_log.audit (max_audit_key + 1))
unfolding sample empty_db Upkeep.append_audit lookup
append_audit_overwrites_example =
    append_audit_overwrites sample 3 entry entry full_log [] (max_audit_key + 1) refl refl refl

dump_valid : check_secret_rows (dump_database sample two_versions) ≡ none
unfolding check_secret_rows dump_database sample empty_db Secrets.create Secrets.put_version
    version_key is_valid_secret_name name_char is_valid_secret_version bytes_eq lookup bytes_lt
    version_field check_names check_version_keys split_version_key split_once parse_i32_digits
    digits_value check_audit_keys
dump_valid = refl

restore-dump_example :
    let (refusal, after) = restore_tables sample full_log (dump_database sample two_versions) in
    (refusal ≡ none) × SameRows sample after two_versions × (after.lockouts ≡ full_log.lockouts)
restore-dump_example = restore-dump sample full_log two_versions dump_valid

restored : (restore_tables sample full_log (dump_database sample two_versions)).0 ≡ none
restored = (restore-dump sample full_log two_versions dump_valid).0

restore_accepts_valid_example :
    let after = (restore_tables sample full_log (dump_database sample two_versions)).1 in
    ((is_some (sample.str.get after.secrets db_password) && not (is_valid_secret_name db_password))
      ≡ false)
    × ((is_some (sample.str.get after.versions db_password)
          && not (valid_version_key (split_version_key db_password)))
        ≡ false)
    × ((is_some (sample.num.get after.audit 0) && ltb max_audit_key 0) ≡ false)
restore_accepts_valid_example =
    restore_accepts_valid sample full_log (dump_database sample two_versions) db_password 0 restored

-- a run of one command
issued_run :
    Reachable sample 1
      (Engine.apply sample 1 (create_secret secret_row (version_row (pos 1))) (empty_db sample)).1
issued_run =
    Reachable.step (empty_db sample) (create_secret secret_row (version_row (pos 1)))
      Reachable.start (1, omega arith, refl, refl, refl)

Reachable-current_version_example :
    let db =
      (Engine.apply sample 1
        (create_secret secret_row (version_row (pos 1)))
        (empty_db sample)).1 in
    (v : VersionRecord) × (Engine.current_version sample db db_password ≡ ok (some (secret_row, v)))
    × (v.expires_at ≡ none)
unfolding sample empty_db Engine.apply secret apply_command Secrets.create version_key
    is_valid_secret_name name_char is_valid_secret_version bytes_eq lookup bytes_lt
Reachable-current_version_example =
    Reachable-current_version sample 1
      (Engine.apply sample 1 (create_secret secret_row (version_row (pos 1))) (empty_db sample)).1
      db_password secret_row issued_run refl
