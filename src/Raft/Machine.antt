-- ===== src/Raft/Machine.antt =====
-- raft/store.rs: the state machine, which applies a batch of entries in one transaction.
use hyperion_vault.Prelude.{ℕ, List, [], ◌∷◌, ◌++◌, Option, none, some}
use hyperion_vault.Store.Model.{
  not_found, conflict, version_conflict, internal, StoreResult, ok, err,
}
use hyperion_vault.Store.Db.{Db}
use hyperion_vault.Store.Apply.{apply_command}
use hyperion_vault.Raft.Types.{
  Openraft, LogId, StoredMembership, blank, normal, membership, Entry, ApplyResult, applied,
  not_there, stale, clashed, Outcome, done, storage_error, ◌>>=◌, Cluster, Node, meta_applied,
  meta_membership, read_meta, write_meta,
}

-- the result that a command's result becomes; an internal error has none
unfoldable pub result_of_command : StoreResult (Unit {0}) → Option ApplyResult
result_of_command (ok _) = some applied
result_of_command (err not_found) = some not_there
result_of_command (err (conflict message)) = some (clashed message)
result_of_command (err version_conflict) = some stale
result_of_command (err internal) = none

-- what a batch has computed: the tables within the transaction and the results so far
pub record Batch (c : Cluster) : Type 0 where
  pub db : Db c.r
  pub results : List ApplyResult
  pub last_applied : Option (LogId c.o)
  pub members : Option (StoredMembership c.o)

abbrev pub or_default : {o : Openraft} → Option (StoredMembership o) → StoredMembership o
or_default {o} none = record { log_id = none; membership = o.no_member }
or_default (some members) = members

module _ (c : Cluster) where
  abbrev pub pushed : Batch c → LogId c.o → ApplyResult → Batch c
  pushed b log_id result = record b {
    results = b.results ++ (result ∷ []);
    last_applied = some log_id;
  }

  -- the payload of an entry, on the tables of the transaction
  unfoldable pub apply_entry : ℕ → Entry c.o → Batch c → Outcome (Batch c)
  unfolding result_of_command
  apply_entry node_id entry b = elim entry.payload [
    | blank ↦ done (pushed b entry.log_id applied)
    | normal command ↦
        let (result, db) = apply_command c.r node_id command b.db in
        elim (result_of_command result) [
          | none ↦ storage_error
          | some result ↦ done (pushed (record b { db = db }) entry.log_id result)
        ]
    | membership member ↦ done (
        pushed
          (record b { members = some (record { log_id = some entry.log_id; membership = member }) })
          entry.log_id applied)
  ]

  unfoldable pub apply_entries : ℕ → List (Entry c.o) → Batch c → Outcome (Batch c)
  apply_entries node_id [] b = done b
  apply_entries node_id (entry ∷ entries) b = do
    next ← apply_entry node_id entry b
    apply_entries node_id entries next

  abbrev pub started : Db c.r → Batch c
  started db = record { db = db; results = []; last_applied = none; members = none }

  abbrev pub write_members : Option (StoredMembership c.o) → c.r.str.Table → Outcome c.r.str.Table
  write_members none meta = done meta
  write_members (some members) meta = write_meta c c.codecs.members meta meta_membership members

  -- the metadata goes into the same transaction
  abbrev pub write_applied :
      Option (LogId c.o) → Option (StoredMembership c.o) → c.r.str.Table → Outcome c.r.str.Table
  write_applied none members meta = done meta
  write_applied (some log_id) members meta =
      write_meta c c.codecs.log_id meta meta_applied log_id >>= write_members members

  abbrev pub commit_batch : Node c → Batch c → Outcome (List ApplyResult × Node c)
  commit_batch node b =
      write_applied b.last_applied b.members node.meta
      >>= (λ meta. done (b.results, record node { db = b.db; meta = meta }))

  -- `apply`; an error drops the transaction, and the node stays as it was
  unfoldable pub apply : ℕ → List (Entry c.o) → Node c → Outcome (List ApplyResult × Node c)
  unfolding apply_entries write_meta
  apply node_id entries node = apply_entries node_id entries (started node.db) >>= commit_batch node

  unfoldable pub applied_state : Node c → Outcome (Option (LogId c.o) × StoredMembership c.o)
  unfolding read_meta
  applied_state node = do
    last_applied ← read_meta c c.codecs.log_id node.meta meta_applied
    members ← read_meta c c.codecs.members node.meta meta_membership
    done (last_applied, or_default members)
