-- ===== src/Raft/Install.antt =====
-- raft/store.rs: a snapshot that one node builds and another one installs.
use hyperion_vault.Prelude.{
  ℕ, ◌≡◌, refl, sym, ap, ◌∙◌, inl, inr, true, Option, none, some, Bytes, bytes_eq, arith, leb,
  if◌then◌else◌, Option-cases,
}
use hyperion_vault.Store.Redb.{bytes_key, nat_key, unbounded, included, within}
use hyperion_vault.Store.Redb.Rows.{get-remove_selected}
use hyperion_vault.Store.Restore.{get-replace_rows}
use hyperion_vault.Store.Db.{Db}
use hyperion_vault.Raft.Types.{
  LogId, StoredMembership, SnapshotData, SnapshotMeta, Snapshot, bind_done, done_injective,
  encoded_done, done, Cluster, Node, meta_purged, meta_applied, meta_membership, meta_snapshot,
  encoded, read_meta, write_meta,
}
use hyperion_vault.Raft.Machine.{applied_state}
use hyperion_vault.Raft.Meta.{Encodes, read_meta-write_meta, read_meta-other, write_meta_total}
use hyperion_vault.Raft.Snapshot.{
  meta_of, check_snapshot_meta, check_snapshot_rows, dump_tables, build_snapshot,
  restore_snapshot_tables, write_last, drop_covered, installed, install_snapshot,
}

module _ (c : Cluster) where
  -- two nodes hold the same rows in every table of a snapshot
  pub record SameTables (a b : Db c.r) : Type 0 where
    pub secrets : (k : Bytes) → c.r.str.get a.secrets k ≡ c.r.str.get b.secrets k
    pub versions : (k : Bytes) → c.r.str.get a.versions k ≡ c.r.str.get b.versions k
    pub roles : (k : Bytes) → c.r.str.get a.roles k ≡ c.r.str.get b.roles k
    pub tokens : (k : Bytes) → c.r.str.get a.tokens k ≡ c.r.str.get b.tokens k
    pub tokens_by_name :
        (k : Bytes) → c.r.str.get a.tokens_by_name k ≡ c.r.str.get b.tokens_by_name k
    pub kms_rewrap : (k : Bytes) → c.r.str.get a.kms_rewrap k ≡ c.r.str.get b.kms_rewrap k

  restored-SameTables :
      (db source : Db c.r) (last : Option (LogId c.o)) (members : StoredMembership c.o)
      → SameTables (restore_snapshot_tables c db (dump_tables c source last members)) source
  unfolding restore_snapshot_tables dump_tables
  restored-SameTables db source last members = record {
    secrets = get-replace_rows bytes_key c.r.str db.secrets source.secrets;
    versions = get-replace_rows bytes_key c.r.str db.versions source.versions;
    roles = get-replace_rows bytes_key c.r.str db.roles source.roles;
    tokens = get-replace_rows bytes_key c.r.str db.tokens source.tokens;
    tokens_by_name = get-replace_rows bytes_key c.r.str db.tokens_by_name source.tokens_by_name;
    kms_rewrap = get-replace_rows bytes_key c.r.str db.kms_rewrap source.kms_rewrap;
  }

  -- what a build has read and encoded
  pub record Built (node : Node c) (snapshot : Snapshot c.o) (after : Node c) : Type 0 where
    pub last : Option (LogId c.o)
    pub members : StoredMembership c.o
    pub state : applied_state c node ≡ done (last, members)
    pub row : c.codecs.snapshot.encode (dump_tables c node.db last members) ≡ some snapshot.snapshot
    pub meta : snapshot.meta ≡ meta_of last members
    pub stored :
        write_meta c c.codecs.bytes node.meta meta_snapshot snapshot.snapshot ≡ done after.meta
    pub kept : after.db ≡ node.db

  pub build_snapshot-Built :
      (node : Node c) (snapshot : Snapshot c.o) (after : Node c)
      → build_snapshot c node ≡ done (snapshot, after)
      → Built node snapshot after
  unfolding build_snapshot
  build_snapshot-Built node snapshot after h =
      bind_done (applied_state c node) _ (snapshot, after) h
        (λ state read h1.
          bind_done (encoded c.codecs.snapshot (dump_tables c node.db state.0 state.1)) _ _ h1
            (λ bytes wrote h2.
              bind_done (write_meta c c.codecs.bytes node.meta meta_snapshot bytes) _ _ h2
                (λ meta stored h3.
                  let same = sym (done_injective _ _ h3) in
                  record {
                    last = state.0;
                    members = state.1;
                    state = read;
                    row = rw (ap (λ p. p.0.snapshot) same) (
                        encoded_done c.codecs.snapshot (dump_tables c node.db state.0 state.1) bytes
                          wrote);
                    meta = ap (λ p. p.0.meta) same;
                    stored = rw (ap (λ p. p.0.snapshot) same, ap (λ p. p.1.meta) same) stored;
                    kept = ap (λ p. p.1.db) same;
                  })))

  -- the metadata and the log of a node that has installed a snapshot
  abbrev pub log_after : Option (LogId c.o) → ℕ → Option Bytes → Option Bytes
  log_after none k row = row
  log_after (some last) k row = if leb k last.index then none else row

  drop_covered-get :
      (last : Option (LogId c.o)) (log : c.r.num.Table) (k : ℕ)
      → c.r.num.get (drop_covered c last log) k ≡ log_after last k (c.r.num.get log k)
  drop_covered-get none log k = refl
  drop_covered-get (some last) log k = elim (Option-cases (c.r.num.get log k)) [
    | inl e ↦ rw (c.r.num.range-iter log unbounded (included last.index)) (
        ground (
          arith,
          get-remove_selected nat_key c.r.num log (within nat_key unbounded (included last.index))
              k,
        ))
    | inr (v, e) ↦ rw (c.r.num.range-iter log unbounded (included last.index)) (
        ground (
          arith,
          get-remove_selected nat_key c.r.num log (within nat_key unbounded (included last.index))
              k,
        ))
  ]

  install_snapshot-decoded :
      (node : Node c) (meta : SnapshotMeta c.o) (bytes : Bytes) (rows : SnapshotData c.o)
      → c.codecs.snapshot.decode bytes ≡ some rows
      → check_snapshot_meta meta ≡ true
      → check_snapshot_rows rows ≡ true
      → install_snapshot c node meta bytes ≡ installed c node meta rows
  unfolding install_snapshot
  install_snapshot-decoded node meta bytes rows e f g = ground arith

  applied_state-reads :
      (node : Node c) (last : Option (LogId c.o)) (members : StoredMembership c.o)
      → read_meta c c.codecs.log_id node.meta meta_applied ≡ done last
      → read_meta c c.codecs.members node.meta meta_membership ≡ done (some members)
      → applied_state c node ≡ done (last, members)
  unfolding applied_state
  applied_state-reads node last members e f = rw (e, f)

  -- a node installs the snapshot of a source
  abbrev pub InstalledFrom : Node c → Node c → Snapshot c.o → Type 0
  InstalledFrom source node snapshot =
      (after : Node c) × ((install_snapshot c node snapshot.meta snapshot.snapshot ≡ done after)
        × SameTables after.db source.db
        × (applied_state c after ≡ applied_state c source)
        × (after.db.lockouts ≡ node.db.lockouts)
        × (after.db.audit ≡ node.db.audit)
        × ((k : ℕ)
            → c.r.num.get after.log k
              ≡ log_after snapshot.meta.last_log_id k (c.r.num.get node.log k)))

  module _ (ids : Encodes c c.codecs.log_id) (lists : Encodes c c.codecs.members) where
    record Wrote (last : Option (LogId c.o)) (meta : c.r.str.Table) : Type 0 where
      table : c.r.str.Table
      wrote : write_last c last meta ≡ done table
      reads : read_meta c c.codecs.log_id table meta_applied ≡ done last

    write_last-Wrote : (last : Option (LogId c.o)) (meta : c.r.str.Table) → Wrote last meta
    unfolding read_meta bytes_eq
    write_last-Wrote none meta = record {
      table = c.r.str.remove meta meta_applied;
      wrote = refl;
      reads = ground (arith, c.r.str.get-remove meta meta_applied meta_applied);
    }
    write_last-Wrote (some last) meta = elim (Option-cases (c.codecs.log_id.codec.encode last)) [
      | inl e ↦ absurd (ground (arith, ids last))
      | inr (row, e) ↦ record {
        table = c.r.str.insert (c.r.str.insert meta meta_applied row) meta_purged row;
        wrote = ground arith;
        reads = ground (
          arith,
          c.r.str.get-insert (c.r.str.insert meta meta_applied row) meta_purged meta_applied row,
          c.r.str.get-insert meta meta_applied meta_applied row,
          c.codecs.log_id.encode-not_null last row e,
          c.codecs.log_id.codec.decode-encode last row e,
        );
      }
    ]

    record Placed (node : Node c) (meta : SnapshotMeta c.o) (rows : SnapshotData c.o) : Type 0 where
      after : Node c
      result : installed c node meta rows ≡ done after
      db : after.db ≡ restore_snapshot_tables c node.db rows
      log : after.log ≡ drop_covered c meta.last_log_id node.log
      applied : read_meta c c.codecs.log_id after.meta meta_applied ≡ done meta.last_log_id
      members :
          read_meta c c.codecs.members after.meta meta_membership ≡ done (some meta.last_membership)

    installed-Placed :
        (node : Node c) (meta : SnapshotMeta c.o) (rows : SnapshotData c.o) → Placed node meta rows
    unfolding bytes_eq
    installed-Placed node meta rows =
        let first = write_last-Wrote meta.last_log_id node.meta in
        let (table, e) =
          write_meta_total c c.codecs.members lists first.table meta_membership
            meta.last_membership in
        record {
          after = record {
            db = restore_snapshot_tables c node.db rows;
            log = drop_covered c meta.last_log_id node.log;
            meta = table;
          };
          result = rw (first.wrote, e);
          db = refl;
          log = refl;
          applied =
              read_meta-other c c.codecs.members c.codecs.log_id first.table table meta_membership
                meta_applied meta.last_membership refl e
              ∙ first.reads;
          members =
              read_meta-write_meta c c.codecs.members first.table table meta_membership
                meta.last_membership e;
        }

    -- A snapshot that a node has built, and whose metadata and rows pass the checks, installs on any node,
    -- if log ids and members can be encoded.
    -- That node then has the builder's rows in each of the six tables and the builder's applied state,
    -- keeps its own lockouts and audit log, and its log holds what it held above the snapshot's last
    -- entry and nothing at or below it.
    pub install_snapshot-build_snapshot :
        (source built node : Node c) (snapshot : Snapshot c.o)
        → build_snapshot c source ≡ done (snapshot, built)
        → check_snapshot_meta snapshot.meta ≡ true
        → check_snapshot_rows
            (dump_tables c source.db snapshot.meta.last_log_id snapshot.meta.last_membership)
          ≡ true
        → InstalledFrom source node snapshot
    unfolding install_snapshot applied_state meta_of restore_snapshot_tables
    install_snapshot-build_snapshot source built node snapshot h ok rows_ok =
        let b = build_snapshot-Built source snapshot built h in
        let rows =
          dump_tables c source.db snapshot.meta.last_log_id snapshot.meta.last_membership in
        let row : c.codecs.snapshot.encode rows ≡ some snapshot.snapshot = rw b.meta b.row in
        let i = installed-Placed node snapshot.meta rows in
        (
          i.after,
          (
            install_snapshot-decoded node snapshot.meta snapshot.snapshot rows
                  (c.codecs.snapshot.decode-encode rows snapshot.snapshot row) ok rows_ok
                ∙ i.result,
            rw i.db (
                restored-SameTables node.db source.db snapshot.meta.last_log_id
                  snapshot.meta.last_membership),
            applied_state-reads i.after snapshot.meta.last_log_id snapshot.meta.last_membership
                  i.applied i.members
                ∙ ap done (ap (λ m. (m.last_log_id, m.last_membership)) b.meta)
                ∙ sym b.state,
            rw i.db,
            rw i.db,
            (λ k.
                ap (λ log. c.r.num.get log k) i.log
                ∙ drop_covered-get snapshot.meta.last_log_id node.log k),
          ),
        )
