-- ===== src/Store/Examples.antt =====
-- Runs of the store on the sample tables.
use hyperion_vault.Prelude.{[], none, some, Bytes, ℤ, pos, codes}
use hyperion_vault.Core.Names.{automatic, opaque}
use hyperion_vault.Store.Model.{SecretRecord, VersionRecord, MetaUpdate, AuditEntry, keep}
use hyperion_vault.Store.Redb.Sample.{sample}
use hyperion_vault.Store.Db.{Db, max_audit_key}
use hyperion_vault.Store.Engine.{empty_db}
use hyperion_vault.Store.Apply.Secrets
use hyperion_vault.Store.Apply.Secrets.{check_secret_row}

abbrev pub db_password : Bytes
db_password = codes "db/password"

abbrev pub secret_row : SecretRecord
secret_row = record {
  name = db_password;
  kind = automatic;
  format = opaque;
  description = none;
  rotation_interval_secs = some (pos 60);
  grace_secs = pos 10;
  current_version = pos 1;
  next_rotation_at = some (pos 160);
  created_at = pos 100;
  updated_at = pos 100;
  target = none;
}

abbrev pub version_row : ℤ → VersionRecord
version_row v = record {
  version = v;
  kms_key_id = codes "k";
  wrapped_dek = codes "w";
  nonce = codes "n";
  ciphertext = codes "c";
  aad = codes "a";
  created_at = pos 100;
  expires_at = none;
  wrapped_rotation_at = none;
}

abbrev pub no_change : MetaUpdate
no_change = record {
  set_description = none;
  set_rotation_interval_secs = none;
  set_grace_secs = none;
  next_rotation_at = keep;
  updated_at = pos 120;
}

-- a store with one secret
abbrev pub one_secret : Db sample
one_secret = (Secrets.create sample secret_row (version_row (pos 1)) (empty_db sample)).1

-- the same after its second version
abbrev pub two_versions : Db sample
two_versions =
    (Secrets.put_version sample db_password (pos 1) (version_row (pos 2)) (some (pos 130)) no_change
      one_secret).1

abbrev pub entry : AuditEntry
entry = record {
  at = pos 100;
  actor = none;
  client_ip = none;
  action = codes "read";
  secret_name = some db_password;
  outcome = codes "ok";
  node_id = 0;
}

-- a store whose audit log has a row at the largest plausible key
abbrev pub full_log : Db sample
full_log = record (empty_db sample) { audit = sample.num.insert sample.num.new max_audit_key [] }
