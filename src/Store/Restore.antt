-- ===== src/Store/Restore.antt =====
-- store/backup.rs: what a restore accepts, and the restore of a dump.
use hyperion_vault.Prelude.{
  ℕ, ◌≤◌, ◌≡◌, refl, sym, ap, ◌∙◌, inl, inr, List, [], ◌∷◌, true, false, Option, none, some, Bytes,
  arith, not, select, Option-cases, Bool-cases, All, ltb, is_some, ◌&&◌,
}
use hyperion_vault.Core.Names.{is_valid_secret_name}
use hyperion_vault.Store.Model.{BackupData}
use hyperion_vault.Store.Redb.{Key, Kv, Storage, bytes_key, nat_key, Ascending, lookup}
use hyperion_vault.Store.Redb.Rows.{keys_of, unless, remove_all, insert_all, get-remove_selected}
use hyperion_vault.Store.Keys.{split_version_key}
use hyperion_vault.Store.Db.{Db, max_audit_key}
use hyperion_vault.Store.Backup.{
  backup_version, check_names, valid_version_key, check_version_keys, check_audit_keys,
  check_secret_rows, replace_rows, dump_database, replace_tables, restore_tables,
}

abbrev found_or {ℓ} : {A : Type ℓ} → Option A → Option A → Option A
found_or none old = old
found_or (some a) old = some a

module _ {K : Type 0} (key : Key K) (kv : Kv K key) where
  select_all : (rows : List (K × Bytes)) → select (λ row. true) rows ≡ rows
  select_all [] = refl
  select_all (row ∷ rows) = ap (◌∷◌ row) (select_all rows)

  get_cleared :
      (t : kv.Table) (k : K) → kv.get (remove_all key kv t (keys_of key (kv.iter t))) k ≡ none
  get_cleared t k =
      ap (λ rows. kv.get (remove_all key kv t (keys_of key rows)) k) (sym (select_all (kv.iter t)))
      ∙ get-remove_selected key kv t (λ row. true) k
      ∙ gone (kv.get t k)
    where
      gone : (o : Option Bytes) → unless key (λ row. true) k o ≡ none
      gone none = refl
      gone (some v) = refl

  absent :
      (k : K) (rows : List (K × Bytes))
      → All (λ other. key.lt k other.0 ≡ true) rows
      → lookup key k rows ≡ none
  unfolding lookup
  absent k [] h = refl
  absent k (row ∷ rows) h = ground (arith, key.eq_iff row.0 k, key.lt_irrefl k, absent k rows)

  get-insert_all :
      (t : kv.Table) (rows : List (K × Bytes)) (k : K)
      → Ascending key rows
      → kv.get (insert_all key kv t rows) k ≡ found_or (lookup key k rows) (kv.get t k)
  unfolding insert_all lookup
  get-insert_all t [] k h = refl
  get-insert_all t (row ∷ rows) k h = elim (Bool-cases (key.eq row.0 k)) [
    | inl same ↦
        let here = (key.eq_iff row.0 k).0 same in
        let later : lookup key k rows ≡ none = absent k rows (rw here at h.0) in
        get-insert_all (kv.insert t row.0 row.1) rows k h.1
        ∙ ground (arith, kv.get-insert t row.0 k row.1)
    | inr other ↦
        get-insert_all (kv.insert t row.0 row.1) rows k h.1
        ∙ ground (arith, kv.get-insert t row.0 k row.1)
  ]

  -- A table whose rows are replaced by those of another reads like the other.
  pub get-replace_rows :
      (t other : kv.Table) (k : K)
      → kv.get (replace_rows key kv t (kv.iter other)) k ≡ kv.get other k
  unfolding replace_rows
  get-replace_rows t other k =
      get-insert_all _ (kv.iter other) k (kv.iter-Ascending other)
      ∙ ground (arith, kv.lookup-iter other k, get_cleared t k)

  -- Every key of a replaced table is a key of the rows it was given.
  insert_all-keys :
      (P : K → Type 0) (t : kv.Table) (rows : List (K × Bytes)) (k : K) (v : Bytes)
      → ((w : Bytes) → kv.get t k ≡ some w → P k)
      → All (λ row. P row.0) rows
      → kv.get (insert_all key kv t rows) k ≡ some v
      → P k
  unfolding insert_all
  insert_all-keys P t [] k v old h e = old v e
  insert_all-keys P t (row ∷ rows) k v old h e =
      insert_all-keys P (kv.insert t row.0 row.1) rows k v
        (λ w e'. elim (Bool-cases (key.eq row.0 k)) [
          | inl same ↦ rw ((key.eq_iff row.0 k).0 same) at h.0
          | inr other ↦ old w (ground (arith, kv.get-insert t row.0 k row.1))
        ])
        h.1 e

  replace_rows-keys :
      (P : K → Type 0) (t : kv.Table) (rows : List (K × Bytes)) (k : K) (v : Bytes)
      → All (λ row. P row.0) rows
      → kv.get (replace_rows key kv t rows) k ≡ some v
      → P k
  unfolding replace_rows
  replace_rows-keys P t rows k v h e =
      insert_all-keys P _ rows k v (λ w e'. cc (get_cleared t k)) h e

check_names-All :
    (rows : List (Bytes × Bytes))
    → check_names rows ≡ none
    → All (λ row. is_valid_secret_name row.0 ≡ true) rows
unfolding check_names
check_names-All [] h = tt
check_names-All (row ∷ rows) h = (ground arith, check_names-All rows (ground arith))

check_version_keys-All :
    (rows : List (Bytes × Bytes))
    → check_version_keys rows ≡ none
    → All (λ row. valid_version_key (split_version_key row.0) ≡ true) rows
unfolding check_version_keys
check_version_keys-All [] h = tt
check_version_keys-All (row ∷ rows) h = (ground arith, check_version_keys-All rows (ground arith))

check_audit_keys-All :
    (rows : List (ℕ × Bytes))
    → check_audit_keys rows ≡ none
    → All (λ row. row.0 ≤ max_audit_key) rows
unfolding check_audit_keys
check_audit_keys-All [] h = tt
check_audit_keys-All (row ∷ rows) h = (ground arith, check_audit_keys-All rows (ground arith))

module _ (r : Storage) where
  -- Two nodes hold the same rows in every table that a backup covers.
  pub record SameRows (a b : Db r) : Type 0 where
    pub secrets : (k : Bytes) → r.str.get a.secrets k ≡ r.str.get b.secrets k
    pub versions : (k : Bytes) → r.str.get a.versions k ≡ r.str.get b.versions k
    pub roles : (k : Bytes) → r.str.get a.roles k ≡ r.str.get b.roles k
    pub tokens : (k : Bytes) → r.str.get a.tokens k ≡ r.str.get b.tokens k
    pub tokens_by_name : (k : Bytes) → r.str.get a.tokens_by_name k ≡ r.str.get b.tokens_by_name k
    pub audit : (k : ℕ) → r.num.get a.audit k ≡ r.num.get b.audit k
    pub kms_rewrap : (k : Bytes) → r.str.get a.kms_rewrap k ≡ r.str.get b.kms_rewrap k

  replace_tables-SameRows :
      (db source : Db r) → SameRows (replace_tables r db (dump_database r source)) source
  unfolding replace_tables dump_database
  replace_tables-SameRows db source = record {
    secrets = get-replace_rows bytes_key r.str db.secrets source.secrets;
    versions = get-replace_rows bytes_key r.str db.versions source.versions;
    roles = get-replace_rows bytes_key r.str db.roles source.roles;
    tokens = get-replace_rows bytes_key r.str db.tokens source.tokens;
    tokens_by_name = get-replace_rows bytes_key r.str db.tokens_by_name source.tokens_by_name;
    audit = get-replace_rows nat_key r.num db.audit source.audit;
    kms_rewrap = get-replace_rows bytes_key r.str db.kms_rewrap source.kms_rewrap;
  }

  restore_accepted :
      (db : Db r) (backup : BackupData)
      → backup.version ≡ backup_version
      → check_secret_rows backup ≡ none
      → restore_tables r db backup ≡ (none, replace_tables r db backup)
  unfolding restore_tables
  restore_accepted db backup e h = ground arith

  version-dump_database : (source : Db r) → (dump_database r source).version ≡ backup_version
  unfolding dump_database
  version-dump_database source = refl

  accepted_rows :
      (db : Db r) (backup : BackupData)
      → (restore_tables r db backup).0 ≡ none
      → ((restore_tables r db backup).1 ≡ replace_tables r db backup)
        × (check_names backup.secrets ≡ none)
        × (check_version_keys backup.versions ≡ none)
        × (check_audit_keys backup.audit ≡ none)
  unfolding restore_tables check_secret_rows
  accepted_rows db backup h = ground arith

  -- The dump of a node whose rows pass the checks is accepted on any node, which then holds the same
  -- rows in every table that a backup covers, and keeps its own lockouts.
  pub restore-dump :
      (db source : Db r)
      → check_secret_rows (dump_database r source) ≡ none
      → let (refusal, after) = restore_tables r db (dump_database r source) in
        (refusal ≡ none) × SameRows after source × (after.lockouts ≡ db.lockouts)
  restore-dump db source h =
      rw accepted (refl, replace_tables-SameRows db source, unfold replace_tables in refl)
    where
      accepted :
          restore_tables r db (dump_database r source)
          ≡ (none, replace_tables r db (dump_database r source))
      accepted = restore_accepted db (dump_database r source) (version-dump_database source) h

  -- After a restore that is accepted every secret's key is a valid name, every version's key is made
  -- of a valid name and a version of one at least, and no audit key is above the largest one.
  pub restore_accepts_valid :
      (db : Db r) (backup : BackupData) (k : Bytes) (i : ℕ)
      → (restore_tables r db backup).0 ≡ none
      → let after = (restore_tables r db backup).1 in
        ((is_some (r.str.get after.secrets k) && not (is_valid_secret_name k)) ≡ false)
        × ((is_some (r.str.get after.versions k) && not (valid_version_key (split_version_key k)))
            ≡ false)
        × ((is_some (r.num.get after.audit i) && ltb max_audit_key i) ≡ false)
  restore_accepts_valid db backup k i h =
      let (same, names, keys, audits) = accepted_rows db backup h in
      rw same (names_hold names, keys_hold keys, audits_hold audits)
    where
      names_hold :
          check_names backup.secrets ≡ none
          → (is_some (r.str.get (replace_tables r db backup).secrets k)
              && not (is_valid_secret_name k))
            ≡ false
      names_hold h = elim (Option-cases (r.str.get (replace_tables r db backup).secrets k)) [
        | inl e ↦ rw e
        | inr (row, e) ↦
            let valid =
              replace_rows-keys bytes_key r.str (λ j. is_valid_secret_name j ≡ true) db.secrets
                backup.secrets k row (check_names-All backup.secrets h)
                (unfold replace_tables in e) in
            ground arith
      ]

      keys_hold :
          check_version_keys backup.versions ≡ none
          → (is_some (r.str.get (replace_tables r db backup).versions k)
              && not (valid_version_key (split_version_key k)))
            ≡ false
      keys_hold h = elim (Option-cases (r.str.get (replace_tables r db backup).versions k)) [
        | inl e ↦ rw e
        | inr (row, e) ↦
            let valid =
              replace_rows-keys bytes_key r.str
                (λ j. valid_version_key (split_version_key j) ≡ true) db.versions backup.versions k
                row (check_version_keys-All backup.versions h) (unfold replace_tables in e) in
            ground arith
      ]

      audits_hold :
          check_audit_keys backup.audit ≡ none
          → (is_some (r.num.get (replace_tables r db backup).audit i) && ltb max_audit_key i)
            ≡ false
      audits_hold h = elim (Option-cases (r.num.get (replace_tables r db backup).audit i)) [
        | inl e ↦ rw e
        | inr (row, e) ↦
            let valid =
              replace_rows-keys nat_key r.num (λ j. j ≤ max_audit_key) db.audit backup.audit i row
                (check_audit_keys-All backup.audit h) (unfold replace_tables in e) in
            ground arith
      ]
