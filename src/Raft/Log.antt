-- ===== src/Raft/Log.antt =====
-- raft/store.rs: the log of raft, its normalization at start-up and its reset.
use hyperion_vault.Prelude.{
  ℕ, ◌+◌, ◌-◌, ◌%◌, ◌^◌, List, [], ◌∷◌, Bool, true, false, not, ◌||◌, ◌&&◌, Option, none, some,
  Bytes, ltb, leb, ◌==◌, if◌then◌else◌,
}
use hyperion_vault.Store.Redb.{Bound, unbounded, included, nat_key, bytes_key}
use hyperion_vault.Store.Redb.Rows.{keys_of, remove_all}
use hyperion_vault.Raft.Types.{
  Openraft, LogId, Entry, Outcome, done, storage_error, ◌>>=◌, Cluster, Node, meta_vote,
  meta_purged, meta_applied, read_meta, write_meta,
}

-- `u64::saturating_add(1)`
abbrev pub saturating_suc : ℕ → ℕ
saturating_suc n = if ltb n (2 ^ 64 - 1) then n + 1 else n

abbrev pub or_else {ℓ} : {A : Type ℓ} → Option A → Option A → Option A
or_else none other = other
or_else (some a) other = some a

abbrev pub at_or_below : Option ℕ → ℕ → Bool
at_or_below none index = false
at_or_below (some f) index = leb index f

-- the loop over the log: the indices to delete
unfoldable pub to_delete : Option ℕ → ℕ → Bool → List (ℕ × Bytes) → List ℕ
to_delete floor expected truncating [] = []
to_delete floor expected truncating (row ∷ rows) =
    let next = to_delete floor ((expected + 1) % 2 ^ 64) truncating rows in
    let below = row.0 ∷ to_delete floor expected truncating rows in
    let cut = row.0 ∷ to_delete floor expected true rows in
    if truncating || at_or_below floor row.0 then below else if row.0 == expected then next else cut

-- the first index after a log id; the log starts there
abbrev pub start_after : Option ℕ → ℕ
start_after none = 0
start_after (some index) = saturating_suc index

abbrev pub is_empty : List ℕ → Bool
is_empty [] = true
is_empty (k ∷ ks) = false

pub record LogState (o : Openraft) : Type 0 where
  pub last_purged_log_id : Option (LogId o)
  pub last_log_id : Option (LogId o)

abbrev pub index_of : {o : Openraft} → Option (LogId o) → Option ℕ
index_of none = none
index_of (some log_id) = some log_id.index

-- whether the purged id is behind the applied one
abbrev pub advance_purged : {o : Openraft} → Option (LogId o) → Option (LogId o) → Bool
advance_purged none purged = false
advance_purged (some a) none = true
advance_purged (some a) (some p) = ltb p.index a.index

module _ (c : Cluster) where
  abbrev pub write_purged : Option (LogId c.o) → c.r.str.Table → Outcome c.r.str.Table
  write_purged none table = done table
  write_purged (some log_id) table = write_meta c c.codecs.log_id table meta_purged log_id

  -- the two transactions at the end; the second one is only there when the purged id moves on
  abbrev pub normalized :
      Node c → Option (LogId c.o) → Option (LogId c.o) → List ℕ → Outcome (Node c)
  normalized node applied purged dels =
      let log = remove_all nat_key c.r.num node.log dels in
      if is_empty dels && not (advance_purged applied purged)
      then done node
      else if advance_purged applied purged
      then write_purged applied node.meta
        >>= (λ meta. done (record node { log = log; meta = meta }))
      else done (record node { log = log })

  unfoldable pub normalize_raft_log : Node c → Outcome (Node c)
  unfolding read_meta write_meta to_delete
  normalize_raft_log node = do
    applied ← read_meta c c.codecs.log_id node.meta meta_applied
    purged ← read_meta c c.codecs.log_id node.meta meta_purged
    let floor = or_else (index_of applied) (index_of purged)
    normalized node applied purged
        (to_delete floor (start_after floor) false (c.r.num.iter node.log))

  unfoldable pub reset_raft_state : Node c → Node c
  reset_raft_state node = record node {
    log = remove_all nat_key c.r.num node.log (keys_of nat_key (c.r.num.iter node.log));
    meta = remove_all bytes_key c.r.str node.meta (keys_of bytes_key (c.r.str.iter node.meta));
  }

  -- the rows of a scan, decoded; a row that does not decode stops it
  unfoldable pub decode_entries : List (ℕ × Bytes) → Outcome (List (Entry c.o))
  decode_entries [] = done []
  decode_entries (row ∷ rows) =
      let rest = decode_entries rows in
      elim (c.codecs.entry.decode row.1) [
        | none ↦ storage_error
        | some entry ↦ rest >>= (λ entries. done (entry ∷ entries))
      ]

  unfoldable pub try_get_log_entries : Node c → Bound ℕ → Bound ℕ → Outcome (List (Entry c.o))
  unfolding decode_entries
  try_get_log_entries node lo hi = decode_entries (c.r.num.range node.log lo hi)

  abbrev pub first_index : List (ℕ × Bytes) → Option ℕ
  first_index [] = none
  first_index (row ∷ rows) = some row.0

  abbrev pub last_row : List (ℕ × Bytes) → Option Bytes
  last_row [] = none
  last_row (row ∷ []) = some row.1
  last_row (row ∷ next ∷ rows) = last_row (next ∷ rows)

  -- a gap below the first entry: the purged id is then taken to be the applied one
  abbrev pub last_purged : Node c → Option (LogId c.o) → Option ℕ → Outcome (Option (LogId c.o))
  last_purged node purged none = done purged
  last_purged node purged (some first) =
      if ltb (start_after (index_of purged)) first
      then read_meta c c.codecs.log_id node.meta meta_applied
        >>= (λ applied. done (or_else applied purged))
      else done purged

  abbrev pub last_log : Option (LogId c.o) → Option Bytes → Outcome (Option (LogId c.o))
  last_log purged none = done purged
  last_log purged (some row) = elim (c.codecs.entry.decode row) [
    | none ↦ storage_error
    | some entry ↦ done (some entry.log_id)
  ]

  unfoldable pub get_log_state : Node c → Outcome (LogState c.o)
  unfolding read_meta
  get_log_state node = do
    stored ← read_meta c c.codecs.log_id node.meta meta_purged
    purged ← last_purged node stored (first_index (c.r.num.iter node.log))
    last ← last_log purged (last_row (c.r.num.iter node.log))
    done (record { last_purged_log_id = purged; last_log_id = last })

  unfoldable pub save_vote : Node c → c.o.Vote → Outcome (Node c)
  unfolding write_meta
  save_vote node vote = do
    meta ← write_meta c c.codecs.vote node.meta meta_vote vote
    done (record node { meta = meta })

  unfoldable pub read_vote : Node c → Outcome (Option c.o.Vote)
  unfolding read_meta
  read_vote node = read_meta c c.codecs.vote node.meta meta_vote

  -- all entries in one transaction, or none
  unfoldable pub append_rows : c.r.num.Table → List (Entry c.o) → Outcome c.r.num.Table
  append_rows log [] = done log
  append_rows log (entry ∷ entries) = elim (c.codecs.entry.encode entry) [
    | none ↦ storage_error
    | some row ↦ append_rows (c.r.num.insert log entry.log_id.index row) entries
  ]

  unfoldable pub append : Node c → List (Entry c.o) → Outcome (Node c)
  unfolding append_rows
  append node entries = do log ← append_rows node.log entries; done (record node { log = log })

  unfoldable pub truncate : Node c → LogId c.o → Node c
  truncate node log_id = record node {
    log =
        remove_all nat_key c.r.num node.log
          (keys_of nat_key (c.r.num.range node.log (included log_id.index) unbounded));
  }

  -- the rows go first, in a transaction of their own, then the purged id is written
  abbrev pub without_purged : Node c → LogId c.o → Node c
  without_purged node log_id = record node {
    log =
        remove_all nat_key c.r.num node.log
          (keys_of nat_key (c.r.num.range node.log unbounded (included log_id.index)));
  }

  unfoldable pub purge : Node c → LogId c.o → Outcome (Unit {0}) × Node c
  unfolding write_meta
  purge node log_id = elim (write_meta c c.codecs.log_id node.meta meta_purged log_id) [
    | storage_error ↦ (storage_error, without_purged node log_id)
    | done meta ↦ (done tt, record (without_purged node log_id) { meta = meta })
  ]
