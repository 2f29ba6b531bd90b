-- ===== src/Store/Current/Runs.antt =====
-- store/engine.rs: runs of a node from an empty database, by the commands that are issued.
use hyperion_vault.Prelude.{
  ℕ, ◌^◌, ◌<◌, ◌≡◌, ◌≢◌, inl, inr, true, Option, none, some, Bytes, ℤ, pos, arith, is_some,
}
use hyperion_vault.Store.Model
use hyperion_vault.Store.Model.{
  Command, SecretRecord, VersionRecord, MetaUpdate, RoleRecord, TokenRecord, AuditEntry,
  KmsRewrapState, FailureReport, StoreResult, ok, err,
}
use hyperion_vault.Store.Redb.{Storage}
use hyperion_vault.Store.Db.{Db, StoreResult-cases}
use hyperion_vault.Store.Engine
use hyperion_vault.Store.Engine.{secret, empty_db}
use hyperion_vault.Store.Apply.{apply_command}
use hyperion_vault.Store.Apply.Secrets
use hyperion_vault.Store.Apply.Secrets.{apply_meta}
use hyperion_vault.Store.Apply.Access
use hyperion_vault.Store.Apply.Upkeep
use hyperion_vault.Store.Concurrency.{secret-put_version}
use hyperion_vault.Store.Current.{
  HasCurrent, expire-HasCurrent, rewrap-HasCurrent, delete-HasCurrent, put-HasCurrent,
}
use hyperion_vault.Store.Current.Steps.{untouched, update_meta-HasCurrent, create-HasCurrent}

module _ (r : Storage) where
  -- What the node puts into a command: a secret is created with its version, whose number is an i32 and
  -- which does not expire; a version is put in place of another one; no backup is restored.
  abbrev pub Issued : Command → Type 0
  Issued (Model.create_secret s v) =
      (n : ℕ) × (n < 2 ^ 31)
      × (v.version ≡ pos n)
      × (s.current_version ≡ v.version)
      × (v.expires_at ≡ none)
  Issued (Model.put_version name expected v supersede meta) =
      (n : ℕ) × (n < 2 ^ 31) × (v.version ≡ pos n) × (v.version ≢ expected) × (v.expires_at ≡ none)
  Issued (Model.restore_database backup) = ⊥
  Issued _ = Unit

  put_version-HasCurrent :
      (name : Bytes) (expected : ℤ) (v : VersionRecord) (supersede : Option ℤ) (meta : MetaUpdate)
      (db : Db r)
      → HasCurrent r db
      → Issued (Model.put_version name expected v supersede meta)
      → (Secrets.put_version r name expected v supersede meta db).0 ≡ ok tt
      → HasCurrent r (Secrets.put_version r name expected v supersede meta db).1
  put_version-HasCurrent name expected v supersede meta db h (n, fits, is_n, moved, lasting) done =
      let (old, was, _, _) = secret-put_version r name expected v supersede meta db done in
      let (_, _, _, _, clean, _, _) = h name old was in
      put-HasCurrent r name expected n v supersede meta db clean fits is_n lasting moved h done

  deleted_present :
      (name : Bytes) (db : Db r)
      → (Secrets.delete r name db).0 ≡ ok tt
      → is_some (r.str.get db.secrets name) ≡ true
  unfolding Secrets.delete
  deleted_present name db done = ground arith

  delete_secret-HasCurrent :
      (name : Bytes) (db : Db r)
      → HasCurrent r db
      → (Secrets.delete r name db).0 ≡ ok tt
      → HasCurrent r (Secrets.delete r name db).1
  delete_secret-HasCurrent name db h done =
      delete-HasCurrent r name db h (deleted_present name db done)

  module _ (node_id : ℕ) (db : Db r) (h : HasCurrent r db) where
    abbrev After : Command → Type 0
    After c = HasCurrent r (apply_command r node_id c db).1

    apply_command-HasCurrent :
        (c : Command) → Issued c → (apply_command r node_id c db).0 ≡ ok tt → After c
    unfolding apply_command
    apply_command-HasCurrent (Model.create_secret s v) (n, fits, is_n, current, lasting) done =
        create-HasCurrent r s v n fits is_n current lasting db h done
    apply_command-HasCurrent (Model.put_version name expected v supersede meta) i done =
        put_version-HasCurrent name expected v supersede meta db h i done
    apply_command-HasCurrent (Model.update_meta name expected meta) i done =
        update_meta-HasCurrent r name expected meta db h done
    apply_command-HasCurrent (Model.delete_secret name) i done =
        delete_secret-HasCurrent name db h done
    apply_command-HasCurrent (Model.create_role role) i done =
        untouched r db (Access.create_role r role db).1 h
          (unfold Access.create_role in ground arith) (unfold Access.create_role in ground arith)
    apply_command-HasCurrent (Model.set_permissions name rules) i done =
        untouched r db (Access.set_permissions r name rules db).1 h
          (unfold Access.set_permissions in ground arith)
          (unfold Access.set_permissions in ground arith)
    apply_command-HasCurrent (Model.delete_role name) i done =
        untouched r db (Access.delete_role r name db).1 h
          (unfold Access.delete_role in ground arith) (unfold Access.delete_role in ground arith)
    apply_command-HasCurrent (Model.add_token token) i done =
        untouched r db (Access.add_token r token db).1 h (unfold Access.add_token in ground arith)
          (unfold Access.add_token in ground arith)
    apply_command-HasCurrent (Model.revoke_token name at) i done =
        untouched r db (Access.revoke_token r name at db).1 h
          (unfold Access.revoke_token in ground arith) (unfold Access.revoke_token in ground arith)
    apply_command-HasCurrent (Model.touch_token fingerprint at) i done =
        untouched r db (Access.touch_token r fingerprint at db).1 h
          (unfold Access.touch_token in ground arith) (unfold Access.touch_token in ground arith)
    apply_command-HasCurrent (Model.expire_grace_versions now) i done =
        expire-HasCurrent r now db h done
    apply_command-HasCurrent (Model.rewrap_version name version kms_key_id wrapped_dek at) i done =
        rewrap-HasCurrent r name kms_key_id wrapped_dek version at db h done
    apply_command-HasCurrent (Model.set_kms_rewrap_state state) i done =
        untouched r db (Upkeep.set_kms_rewrap_state r state db).1 h
          (unfold Upkeep.set_kms_rewrap_state in ground arith)
          (unfold Upkeep.set_kms_rewrap_state in ground arith)
    apply_command-HasCurrent (Model.append_audit entry) i done =
        untouched r db (Upkeep.append_audit r node_id entry db).1 h
          (unfold Upkeep.append_audit in ground arith) (unfold Upkeep.append_audit in ground arith)
    apply_command-HasCurrent (Model.restore_database backup) i done = absurd i
    apply_command-HasCurrent (Model.record_auth_failure report) i done =
        untouched r db (Access.record_auth_failure r report db).1 h
          (unfold Access.record_auth_failure in ground arith)
          (unfold Access.record_auth_failure in ground arith)

    -- a transaction of the engine keeps the tables when the command fails
    apply-HasCurrent : (c : Command) → Issued c → HasCurrent r (Engine.apply r node_id c db).1
    unfolding Engine.apply
    apply-HasCurrent c i = elim (StoreResult-cases (apply_command r node_id c db).0) [
      | inl (_, done) ↦ rw done (apply_command-HasCurrent c i done)
      | inr (e, failed) ↦ rw failed h
    ]

  -- the tables of a node after issued commands, from an empty database
  pub data Reachable (node_id : ℕ) : Db r → Type 0 where
    start : Reachable node_id (empty_db r)
    step :
        (db : Db r) (c : Command)
        → Reachable node_id db
        → Issued c
        → Reachable node_id (Engine.apply r node_id c db).1

  Reachable-HasCurrent : (node_id : ℕ) (db : Db r) → Reachable node_id db → HasCurrent r db
  unfolding empty_db secret
  Reachable-HasCurrent node_id _ start = λ name s found. absurd (ground (arith, r.str.get-new name))
  Reachable-HasCurrent node_id _ (step db c run i) =
      apply-HasCurrent node_id db (Reachable-HasCurrent node_id db run) c i

  -- After any sequence of issued commands on an empty database, successful or not, a secret that can be
  -- read has its current version: reading that gives the secret and a version with no expiry. A command
  -- is issued when it is no restore, and the version that it brings has the number of an i32, no expiry,
  -- and another number than the expected one, or for a new secret its current one.
  pub Reachable-current_version :
      (node_id : ℕ) (db : Db r) (name : Bytes) (s : SecretRecord)
      → Reachable node_id db
      → secret r db name ≡ ok (some s)
      → (v : VersionRecord) × (Engine.current_version r db name ≡ ok (some (s, v)))
        × (v.expires_at ≡ none)
  unfolding Engine.current_version secret
  Reachable-current_version node_id db name s run found =
      let (_, v, _, _, _, there, free) = Reachable-HasCurrent node_id db run name s found in
      (v, ground arith, free)
