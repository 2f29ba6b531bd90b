-- ===== src/Raft/Snapshot.antt =====
-- raft/store.rs: building, installing and reading a snapshot of the state machine.
use hyperion_vault.Prelude.{
  Bool, false, ◌&&◌, not, Option, none, some, Bytes, ltb, codes, all, ◌++◌, if◌then◌else◌,
}
use hyperion_vault.Core.Names.{is_valid_secret_name}
use hyperion_vault.Store.Redb.{unbounded, included, nat_key, bytes_key}
use hyperion_vault.Store.Redb.Rows.{keys_of, remove_all}
use hyperion_vault.Store.Keys.{split_version_key}
use hyperion_vault.Store.Backup.{valid_version_key, replace_rows, dump_rows}
use hyperion_vault.Store.Db.{Db}
use hyperion_vault.Raft.Types.{
  Openraft, LogId, StoredMembership, SnapshotData, SnapshotMeta, Snapshot, Outcome, done,
  storage_error, ◌>>=◌, Cluster, Node, meta_purged, meta_applied, meta_membership, meta_snapshot,
  max_plausible_log_index, encoded, read_meta, write_meta,
}
use hyperion_vault.Raft.Machine.{applied_state}

-- `format!("{}-{}", log_id.leader_id, log_id.index)`
unfoldable pub snapshot_id : {o : Openraft} → Option (LogId o) → Bytes
snapshot_id none = codes "empty"
snapshot_id {o} (some log_id) =
    o.leader_text log_id.leader_id ++ (codes "-" ++ o.index_text log_id.index)

unfoldable pub meta_of : {o : Openraft} → Option (LogId o) → StoredMembership o → SnapshotMeta o
unfolding snapshot_id
meta_of last_applied members = record {
  last_log_id = last_applied;
  last_membership = members;
  snapshot_id = snapshot_id last_applied;
}

abbrev pub above_plausible : {o : Openraft} → Option (LogId o) → Bool
above_plausible none = false
above_plausible (some last) = ltb max_plausible_log_index last.index

unfoldable pub check_snapshot_meta : {o : Openraft} → SnapshotMeta o → Bool
check_snapshot_meta meta = not (above_plausible meta.last_log_id)

unfoldable pub check_snapshot_rows : {o : Openraft} → SnapshotData o → Bool
check_snapshot_rows rows =
    all (λ row. is_valid_secret_name row.0) rows.secrets
    && all (λ row. valid_version_key (split_version_key row.0)) rows.versions

module _ (c : Cluster) where
  -- `dump_str_table` of each table; the lockouts and the audit log stay out
  unfoldable pub dump_tables : Db c.r → Option (LogId c.o) → StoredMembership c.o → SnapshotData c.o
  dump_tables db last_applied members = record {
    secrets = dump_rows bytes_key c.r.str db.secrets;
    versions = dump_rows bytes_key c.r.str db.versions;
    roles = dump_rows bytes_key c.r.str db.roles;
    tokens = dump_rows bytes_key c.r.str db.tokens;
    tokens_by_name = dump_rows bytes_key c.r.str db.tokens_by_name;
    kms_rewrap = dump_rows bytes_key c.r.str db.kms_rewrap;
    last_applied = last_applied;
    members = members;
  }

  unfoldable pub build_snapshot : Node c → Outcome (Snapshot c.o × Node c)
  unfolding applied_state dump_tables meta_of write_meta
  build_snapshot node = do
    state ← applied_state c node
    bytes ← encoded c.codecs.snapshot (dump_tables node.db state.0 state.1)
    meta ← write_meta c c.codecs.bytes node.meta meta_snapshot bytes
    done (record { meta = meta_of state.0 state.1; snapshot = bytes }, record node { meta = meta })

  -- `restore_str_table` of each table
  unfoldable pub restore_snapshot_tables : Db c.r → SnapshotData c.o → Db c.r
  restore_snapshot_tables db rows = record db {
    secrets = replace_rows bytes_key c.r.str db.secrets rows.secrets;
    versions = replace_rows bytes_key c.r.str db.versions rows.versions;
    roles = replace_rows bytes_key c.r.str db.roles rows.roles;
    tokens = replace_rows bytes_key c.r.str db.tokens rows.tokens;
    tokens_by_name = replace_rows bytes_key c.r.str db.tokens_by_name rows.tokens_by_name;
    kms_rewrap = replace_rows bytes_key c.r.str db.kms_rewrap rows.kms_rewrap;
  }

  abbrev pub write_last : Option (LogId c.o) → c.r.str.Table → Outcome c.r.str.Table
  write_last none meta = done (c.r.str.remove meta meta_applied)
  write_last (some last) meta =
      encoded c.codecs.log_id.codec last
      >>= (λ row. done (c.r.str.insert (c.r.str.insert meta meta_applied row) meta_purged row))

  -- the rows of the log up to the last entry of the snapshot
  abbrev pub drop_covered : Option (LogId c.o) → c.r.num.Table → c.r.num.Table
  drop_covered none log = log
  drop_covered (some last) log =
      remove_all nat_key c.r.num log
        (keys_of nat_key (c.r.num.range log unbounded (included last.index)))

  abbrev pub installed : Node c → SnapshotMeta c.o → SnapshotData c.o → Outcome (Node c)
  installed node meta rows =
      write_last meta.last_log_id node.meta
      >>= (λ table. write_meta c c.codecs.members table meta_membership meta.last_membership)
      >>= (λ table. done (record {
        db = restore_snapshot_tables node.db rows;
        log = drop_covered meta.last_log_id node.log;
        meta = table;
      }))

  unfoldable pub install_snapshot : Node c → SnapshotMeta c.o → Bytes → Outcome (Node c)
  unfolding check_snapshot_meta check_snapshot_rows restore_snapshot_tables write_meta
  install_snapshot node meta bytes = elim (c.codecs.snapshot.decode bytes) [
    | none ↦ storage_error
    | some rows ↦
        if check_snapshot_meta meta && check_snapshot_rows rows
        then installed node meta rows
        else storage_error
  ]

  abbrev pub with_state : Node c → Option Bytes → Outcome (Option (Snapshot c.o))
  with_state node none = done none
  with_state node (some bytes) =
      applied_state c node
      >>= (λ state. done (some (record { meta = meta_of state.0 state.1; snapshot = bytes })))

  unfoldable pub get_current_snapshot : Node c → Outcome (Option (Snapshot c.o))
  unfolding read_meta applied_state meta_of
  get_current_snapshot node = read_meta c c.codecs.bytes node.meta meta_snapshot >>= with_state node
