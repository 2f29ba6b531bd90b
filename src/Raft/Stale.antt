-- ===== src/Raft/Stale.antt =====
-- raft/store.rs: the snapshot that is stored, and the one that `get_current_snapshot` gives.
use hyperion_vault.Prelude.{
  ℕ, ◌≡◌, refl, sym, ap, ◌∙◌, List, ◌∷◌, any, false, Option, none, some, Bytes, bytes_eq,
}
use hyperion_vault.Raft.Types.{
  LogId, StoredMembership, Snapshot, Entry, ApplyResult, bind_done, done, Cluster, Node,
  meta_applied, meta_membership, meta_snapshot, read_meta,
}
use hyperion_vault.Raft.Machine.{or_default, apply, applied_state}
use hyperion_vault.Raft.Meta.{Encodes, read_meta-write_meta, read_meta-other}
use hyperion_vault.Raft.Snapshot.{meta_of, build_snapshot, get_current_snapshot}
use hyperion_vault.Raft.Refine.{is_internal, write_all, last_id, last_members}
use hyperion_vault.Raft.Batch.{members_after, apply-write_all}
use hyperion_vault.Raft.Install.{build_snapshot-Built}

module _ (c : Cluster) where
  current_of_reads :
      (node : Node c) (bytes : Bytes) (last : Option (LogId c.o)) (members : StoredMembership c.o)
      → read_meta c c.codecs.bytes node.meta meta_snapshot ≡ done (some bytes)
      → applied_state c node ≡ done (last, members)
      → get_current_snapshot c node
        ≡ done (some (record { meta = meta_of last members; snapshot = bytes }))
  unfolding get_current_snapshot
  current_of_reads node bytes last members e f = rw (e, f)

  -- a batch is applied, and the current snapshot then has its last id beside the bytes of an older one
  abbrev pub StaleAfter : ℕ → Entry c.o → List (Entry c.o) → Node c → Snapshot c.o → Type 0
  StaleAfter node_id entry entries built snapshot =
      (results : List ApplyResult) × ((after : Node c) × ((current : Snapshot c.o) × ((apply c
                node_id (entry ∷ entries) built
              ≡ done (results, after))
            × (get_current_snapshot c after ≡ done (some current))
            × (current.snapshot ≡ snapshot.snapshot)
            × (current.meta.last_log_id ≡ last_id c (some entry.log_id) entries))))

  module _ (node built : Node c) (snapshot : Snapshot c.o)
      (h : build_snapshot c node ≡ done (snapshot, built)) where
    stored_bytes :
        read_meta c c.codecs.bytes built.meta meta_snapshot ≡ done (some snapshot.snapshot)
    stored_bytes =
        read_meta-write_meta c c.codecs.bytes node.meta built.meta meta_snapshot snapshot.snapshot
          (build_snapshot-Built c node snapshot built h).stored

    same_state : applied_state c built ≡ applied_state c node
    unfolding applied_state bytes_eq
    same_state =
        let b = build_snapshot-Built c node snapshot built h in
        rw (
          read_meta-other c c.codecs.bytes c.codecs.log_id node.meta built.meta meta_snapshot
              meta_applied snapshot.snapshot refl b.stored,
          read_meta-other c c.codecs.bytes c.codecs.members node.meta built.meta meta_snapshot
              meta_membership snapshot.snapshot refl b.stored,
        )

    -- The snapshot that a build has given is the current one in the node as the build left it.
    get_current_snapshot-build_snapshot : get_current_snapshot c built ≡ done (some snapshot)
    get_current_snapshot-build_snapshot =
        let b = build_snapshot-Built c node snapshot built h in
        current_of_reads built snapshot.snapshot b.last b.members stored_bytes
          (same_state ∙ b.state)
        ∙ ap (λ meta. done (some (record { meta = meta; snapshot = snapshot.snapshot })))
            (sym b.meta)

    record Reads (meta : c.r.str.Table) : Type 0 where
      members : Option (StoredMembership c.o)
      read : read_meta c c.codecs.members meta meta_membership ≡ done members

    built_members : Reads built.meta
    unfolding applied_state
    built_members =
        let b = build_snapshot-Built c node snapshot built h in
        bind_done (read_meta c c.codecs.log_id built.meta meta_applied) _ (b.last, b.members)
          (same_state ∙ b.state)
          (λ last read_last h1.
            bind_done (read_meta c c.codecs.members built.meta meta_membership) _ _ h1
              (λ members read h2. record { members = members; read = read }))

    members_or :
        (new old : Option (StoredMembership c.o))
        → (members : Option (StoredMembership c.o)) × (members_after c new (done old)
            ≡ done members)
    members_or none old = (old, refl)
    members_or (some new) old = (some new, refl)

    state_of_reads :
        (after : Node c) (last : Option (LogId c.o)) (members : Option (StoredMembership c.o))
        → read_meta c c.codecs.log_id after.meta meta_applied ≡ done last
        → read_meta c c.codecs.members after.meta meta_membership ≡ done members
        → applied_state c after ≡ done (last, or_default members)
    unfolding applied_state
    state_of_reads after last members e f = rw (e, f)

    -- Once a batch without an internal error is applied after a build, and log ids and members can be encoded,
    -- the current snapshot is the bytes of that build beside the id of the last entry of the batch.
    pub get_current_snapshot-apply :
        (ids : Encodes c c.codecs.log_id) (lists : Encodes c c.codecs.members) (node_id : ℕ)
        (entry : Entry c.o) (entries : List (Entry c.o))
        → any is_internal (write_all c node_id (entry ∷ entries) built.db).0 ≡ false
        → StaleAfter node_id entry entries built snapshot
    unfolding meta_of
    get_current_snapshot-apply ids lists node_id entry entries ok =
        let (results, (after, (ran, _, _, _, applied, read, kept))) =
          apply-write_all c ids lists node_id entry entries built ok in
        let last = last_id c (some entry.log_id) entries in
        let (members, e) =
          members_or (last_members c none (entry ∷ entries)) built_members.members in
        let read_all : read_meta c c.codecs.members after.meta meta_membership ≡ done members =
          read
          ∙ ap (members_after c (last_members c none (entry ∷ entries))) built_members.read
          ∙ e in
        (
          results,
          (
            after,
            (
              record { meta = meta_of last (or_default members); snapshot = snapshot.snapshot },
              (
                ran,
                current_of_reads after snapshot.snapshot last (or_default members)
                    (kept ∙ stored_bytes) (state_of_reads after last members applied read_all),
                refl,
                refl,
              ),
            ),
          ),
        )
