-- ===== src/Raft/Batch.antt =====
-- raft/store.rs: `apply` as a whole, with the metadata that it writes.
use hyperion_vault.Prelude.{
  ℕ, ◌≡◌, refl, sym, ap, ◌∙◌, inl, inr, List, [], ◌∷◌, map, any, Bool, true, false, Option, none,
  some, arith, Bool-cases, bytes_eq, ◌||◌,
}
use hyperion_vault.Raft.Types.{
  LogId, StoredMembership, Entry, ApplyResult, outcome_to_result, Outcome, done, storage_error,
  ◌>>=◌, Cluster, Node, meta_applied, meta_membership, meta_snapshot, read_meta, write_meta,
}
use hyperion_vault.Raft.Machine.{Batch, started, write_members, commit_batch, apply_entries, apply}
use hyperion_vault.Raft.Meta.{Encodes, read_meta-write_meta, read_meta-other, write_meta_total}
use hyperion_vault.Raft.Refine.{
  is_internal, write_one, write_all, last_id, last_members, apply_entry-Step, apply_entries-Batched,
  internal_stops,
}

module _ (c : Cluster) where
  or_true : (x y : Bool) → (x || y) ≡ true → x ≡ false → y ≡ true
  or_true x y h first = ground arith

  apply_entries-internal :
      (node_id : ℕ) (entries : List (Entry c.o)) (b : Batch c)
      → any is_internal (write_all c node_id entries b.db).0 ≡ true
      → apply_entries c node_id entries b ≡ storage_error
  unfolding apply_entries write_all
  apply_entries-internal node_id [] b h = cc
  apply_entries-internal node_id (entry ∷ entries) b h =
      elim (Bool-cases (is_internal (write_one c node_id entry b.db).0)) [
        | inl stops ↦ rw (internal_stops c node_id entry.log_id entry.payload b stops)
        | inr goes_on ↦
            let step = apply_entry-Step c node_id entry.log_id entry.payload b goes_on in
            rw step.taken (
              apply_entries-internal node_id entries step.batch
                (rw step.db (or_true _ _ h goes_on)))
      ]

  last_id-some :
      (first : LogId c.o) (entries : List (Entry c.o))
      → (last : LogId c.o) × (last_id c (some first) entries ≡ some last)
  last_id-some first [] = (first, refl)
  last_id-some first (entry ∷ entries) = last_id-some entry.log_id entries

  -- the members that a node reads after a batch
  abbrev pub members_after :
      Option (StoredMembership c.o)
      → Outcome (Option (StoredMembership c.o))
      → Outcome (Option (StoredMembership c.o))
  members_after none old = old
  members_after (some members) old = done (some members)

  record Written (last : LogId c.o) (members : Option (StoredMembership c.o)) (meta : c.r.str.Table)
      : Type 0 where
    after : c.r.str.Table
    wrote :
        (write_meta c c.codecs.log_id meta meta_applied last >>= write_members c members)
        ≡ done after
    applied_id : read_meta c c.codecs.log_id after meta_applied ≡ done (some last)
    read_members :
        read_meta c c.codecs.members after meta_membership
        ≡ members_after members (read_meta c c.codecs.members meta meta_membership)
    snapshot :
        read_meta c c.codecs.bytes after meta_snapshot
        ≡ read_meta c c.codecs.bytes meta meta_snapshot

  commit_batch-last :
      (node : Node c) (b : Batch c) (last : LogId c.o) (after : c.r.str.Table)
      → b.last_applied ≡ some last
      → (write_meta c c.codecs.log_id node.meta meta_applied last >>= write_members c b.members)
        ≡ done after
      → commit_batch c node b ≡ done (b.results, record node { db = b.db; meta = after })
  commit_batch-last node b last after e h = ground arith

  -- a batch is taken, with the replies and the tables of single writes, and its metadata is read back
  abbrev pub TakenAsWritten : ℕ → Entry c.o → List (Entry c.o) → Node c → Type 0
  TakenAsWritten node_id entry entries node =
      (results : List ApplyResult) × ((after : Node c) × ((apply c node_id (entry ∷ entries) node
            ≡ done (results, after))
          × (map outcome_to_result results ≡ (write_all c node_id (entry ∷ entries) node.db).0)
          × (after.db ≡ (write_all c node_id (entry ∷ entries) node.db).1)
          × (after.log ≡ node.log)
          × (read_meta c c.codecs.log_id after.meta meta_applied
              ≡ done (last_id c (some entry.log_id) entries))
          × (read_meta c c.codecs.members after.meta meta_membership
              ≡ members_after (last_members c none (entry ∷ entries))
                  (read_meta c c.codecs.members node.meta meta_membership))
          × (read_meta c c.codecs.bytes after.meta meta_snapshot
              ≡ read_meta c c.codecs.bytes node.meta meta_snapshot)))

  module _ (ids : Encodes c c.codecs.log_id) (lists : Encodes c c.codecs.members) where
    write_applied-Written :
        (last : LogId c.o) (members : Option (StoredMembership c.o)) (meta : c.r.str.Table)
        → Written last members meta
    unfolding bytes_eq
    write_applied-Written last none meta =
        let (first, e) = write_meta_total c c.codecs.log_id ids meta meta_applied last in
        record {
          after = first;
          wrote = rw e;
          applied_id = read_meta-write_meta c c.codecs.log_id meta first meta_applied last e;
          read_members =
              read_meta-other c c.codecs.log_id c.codecs.members meta first meta_applied
                meta_membership last refl e;
          snapshot =
              read_meta-other c c.codecs.log_id c.codecs.bytes meta first meta_applied meta_snapshot
                last refl e;
        }
    write_applied-Written last (some members) meta =
        let (first, e) = write_meta_total c c.codecs.log_id ids meta meta_applied last in
        let (second, e') =
          write_meta_total c c.codecs.members lists first meta_membership members in
        record {
          after = second;
          wrote = rw (e, e');
          applied_id =
              read_meta-other c c.codecs.members c.codecs.log_id first second meta_membership
                meta_applied members refl e'
              ∙ read_meta-write_meta c c.codecs.log_id meta first meta_applied last e;
          read_members =
              read_meta-write_meta c c.codecs.members first second meta_membership members e';
          snapshot =
              read_meta-other c c.codecs.members c.codecs.bytes first second meta_membership
                meta_snapshot members refl e'
              ∙ read_meta-other c c.codecs.log_id c.codecs.bytes meta first meta_applied
                  meta_snapshot last refl e;
        }

    -- A batch in which no entry has an internal error is taken, if log ids and members can be encoded. The results are the replies that a store
    -- of one node gives to the same commands, one transaction for each, and the tables are that store's.
    -- The log is untouched; the last entry's id and the last members are read back from the
    -- metadata, and a stored snapshot stays.
    pub apply-write_all :
        (node_id : ℕ) (entry : Entry c.o) (entries : List (Entry c.o)) (node : Node c)
        → any is_internal (write_all c node_id (entry ∷ entries) node.db).0 ≡ false
        → TakenAsWritten node_id entry entries node
    unfolding apply
    apply-write_all node_id entry entries node h =
        let batched = apply_entries-Batched c node_id (entry ∷ entries) (started c node.db) h in
        let (last, e) = last_id-some entry.log_id entries in
        let written = write_applied-Written last batched.batch.members node.meta in
        let is_last : batched.batch.last_applied ≡ some last = batched.last ∙ e in
        (
          batched.batch.results,
          (
            record node { db = batched.batch.db; meta = written.after },
            (
              rw batched.taken
                  (commit_batch-last node batched.batch last written.after is_last written.wrote),
              batched.results,
              batched.db,
              refl,
              written.applied_id ∙ ap done (sym e),
              rw (sym batched.members) written.read_members,
              written.snapshot,
            ),
          ),
        )

  -- A batch in which some entry has an internal error is not taken: it fails, whatever comes before and
  -- after that entry.
  pub apply-internal :
      (node_id : ℕ) (entries : List (Entry c.o)) (node : Node c)
      → any is_internal (write_all c node_id entries node.db).0 ≡ true
      → apply c node_id entries node ≡ storage_error
  unfolding apply
  apply-internal node_id entries node h =
      rw (apply_entries-internal node_id entries (started c node.db) h)
