-- ===== src/Raft/Normalize.antt =====
-- raft/store.rs: the log after its normalization.
use hyperion_vault.Prelude.{
  ℕ, ◌+◌, ◌-◌, ◌%◌, ◌^◌, ◌<◌, ◌≤◌, ◌≡◌, refl, sym, ap, ◌∙◌, ◌⊎◌, All-map, inl, inr, List, [], ◌∷◌,
  Bool, true, false, not, ◌&&◌, Option, none, some, Bytes, All, ltb, leb, ◌==◌, is_some,
  if◌then◌else◌, Bool-cases, Option-cases, arith,
}
use hyperion_vault.Store.Redb.{nat_key, lookup, Ascending}
use hyperion_vault.Store.Redb.Rows.{listed, remove_all, get-remove_all}
use hyperion_vault.Raft.Types.{
  LogId, bind_done, done_injective, ◌>>=◌, done, Cluster, Node, meta_purged, meta_applied,
  read_meta,
}
use hyperion_vault.Raft.Log.{
  to_delete, at_or_below, start_after, or_else, index_of, advance_purged, normalized, write_purged,
  normalize_raft_log,
}
use hyperion_vault.Raft.Meta.{read_meta-write_meta}

suc_mod : (n : ℕ) → n < 2 ^ 64 - 1 → (n + 1) % 2 ^ 64 ≡ n + 1
suc_mod n h = omega arith

absent_below :
    (k : ℕ) (rows : List (ℕ × Bytes))
    → All (λ other. ltb k other.0 ≡ true) rows
    → lookup nat_key k rows ≡ none
unfolding lookup
absent_below k [] h = refl
absent_below k (row ∷ rows) h = ground (arith, absent_below k rows h.1)

truncating-all :
    (floor : Option ℕ) (e k : ℕ) (rows : List (ℕ × Bytes))
    → listed nat_key k (to_delete floor e true rows) ≡ is_some (lookup nat_key k rows)
unfolding to_delete lookup
truncating-all floor e k [] = refl
truncating-all floor e k (row ∷ rows) = ground (arith, truncating-all floor e k rows)

below-lt :
    (floor : Option ℕ) (i e : ℕ) → at_or_below floor i ≡ true → at_or_below floor e ≡ false → i < e
below-lt none i e p q = absurd (cc)
below-lt (some f) i e p q = ground arith

above_suc :
    (floor : Option ℕ) (e : ℕ) → at_or_below floor e ≡ false → at_or_below floor (e + 1) ≡ false
above_suc none e h = refl
above_suc (some f) e h = ground arith

-- the rows above the floor have no index before `e`
abbrev NoneBefore : Option ℕ → ℕ → List (ℕ × Bytes) → Type 0
NoneBefore floor e rows = All (λ row. (at_or_below floor row.0 ≡ true) ⊎ (e ≤ row.0)) rows

start-NoneBefore :
    (floor : Option ℕ) (rows : List (ℕ × Bytes)) → NoneBefore floor (start_after floor) rows
start-NoneBefore floor [] = tt
start-NoneBefore none (row ∷ rows) = (inr (omega arith), start-NoneBefore none rows)
start-NoneBefore (some f) (row ∷ rows) = (
  elim (Bool-cases (at_or_below (some f) row.0)) [
    | inl below ↦ inl below
    | inr above ↦ inr (ground arith)
  ],
  start-NoneBefore (some f) rows,
)

after-NoneBefore :
    (floor : Option ℕ) (e : ℕ) (rows : List (ℕ × Bytes))
    → All (λ other. ltb e other.0 ≡ true) rows
    → NoneBefore floor (e + 1) rows
after-NoneBefore floor e rows h = All-map _ _ rows (λ row later. inr (ground arith)) h

absent_gap :
    (floor : Option ℕ) (e : ℕ) (row : ℕ × Bytes) (rows : List (ℕ × Bytes))
    → Ascending nat_key (row ∷ rows)
    → NoneBefore floor e (row ∷ rows)
    → at_or_below floor row.0 ≡ false
    → (row.0 == e) ≡ false
    → lookup nat_key e (row ∷ rows) ≡ none
absent_gap floor e row rows asc placed above other = elim placed.0 [
  | inl below ↦ absurd (cc)
  | inr later ↦
      absent_below e (row ∷ rows) (ground arith, All-map _ _ rows (λ x h. ground arith) asc.0)
]

-- `e`, `e + 1`, …, `last - 1` stay, and they are all there; `last` is not
record Kept (floor : Option ℕ) (e : ℕ) (rows : List (ℕ × Bytes)) : Type 0 where
  last : ℕ
  from : e ≤ last
  deleted :
      (k : ℕ)
      → listed nat_key k (to_delete floor e false rows)
        ≡ (is_some (lookup nat_key k rows) && not (leb e k && ltb k last))
  present : (k : ℕ) → e ≤ k → k < last → is_some (lookup nat_key k rows) ≡ true
  stops : lookup nat_key last rows ≡ none

to_delete-Kept :
    (floor : Option ℕ) (e : ℕ) (rows : List (ℕ × Bytes))
    → Ascending nat_key rows
    → All (λ row. row.0 < 2 ^ 64 - 1) rows
    → NoneBefore floor e rows
    → at_or_below floor e ≡ false
    → Kept floor e rows
unfolding to_delete lookup
to_delete-Kept floor e [] asc small placed h = record {
  last = e;
  from = omega arith;
  deleted = (λ k. refl);
  present = (λ k p q. absurd (omega arith));
  stops = refl;
}
to_delete-Kept floor e (row ∷ rows) asc small placed h =
    elim (Bool-cases (at_or_below floor row.0)) [
      | inl below ↦
          let rest = to_delete-Kept floor e rows asc.1 small.1 placed.1 h in
          record {
            last = rest.last;
            from = rest.from;
            deleted =
                (λ k. ground (arith, rest.deleted k, below-lt floor row.0 e below h, rest.from));
            present = (λ k p q. ground (arith, rest.present k p q));
            stops = ground (arith, rest.stops, below-lt floor row.0 e below h, rest.from);
          }
      | inr above ↦ elim (Bool-cases (row.0 == e)) [
        | inl next ↦
            let same : row.0 ≡ e = ground arith in
            let fits : e < 2 ^ 64 - 1 = rw (sym same) small.0 in
            let rest =
              to_delete-Kept floor (e + 1) rows asc.1 small.1
                (after-NoneBefore floor e rows (rw same at asc.0)) (above_suc floor e h) in
            let gone : lookup nat_key e rows ≡ none = absent_below e rows (rw same at asc.0) in
            record {
              last = rest.last;
              from = omega (arith, rest.from);
              deleted = (λ k. ground (arith, rest.deleted k, suc_mod e fits, rest.from));
              present = (λ k p q. ground (arith, rest.present k));
              stops = ground (arith, rest.stops, rest.from);
            }
        | inr gap ↦ record {
          last = e;
          from = omega arith;
          deleted = (λ k. ground (arith, truncating-all floor e k rows));
          present = (λ k p q. absurd (omega arith));
          stops = absent_gap floor e row rows asc placed above gap;
        }
      ]
    ]

-- a log id after which there is a next index
abbrev pub has_next : Option ℕ → Bool
has_next none = true
has_next (some index) = ltb index (2 ^ 64 - 1)

above_start :
    (floor : Option ℕ) → has_next floor ≡ true → at_or_below floor (start_after floor) ≡ false
above_start none h = refl
above_start (some index) h = ground arith

module _ (c : Cluster) where
  write_purged-read :
      (applied purged : Option (LogId c.o)) (meta after : c.r.str.Table)
      → advance_purged applied purged ≡ true
      → write_purged c applied meta ≡ done after
      → read_meta c c.codecs.log_id after meta_purged ≡ done applied
  write_purged-read none purged meta after h e = absurd (cc)
  write_purged-read (some log_id) purged meta after h e =
      read_meta-write_meta c c.codecs.log_id meta after meta_purged log_id e

  record Normal (node after : Node c) (applied purged : Option (LogId c.o)) (dels : List ℕ)
      : Type 0 where
    log :
        (k : ℕ)
        → c.r.num.get after.log k ≡ (if listed nat_key k dels then none else c.r.num.get node.log k)
    read :
        read_meta c c.codecs.log_id after.meta meta_purged
        ≡ done (if advance_purged applied purged then applied else purged)
    db : after.db ≡ node.db

  normalized-Normal :
      (node after : Node c) (applied purged : Option (LogId c.o)) (dels : List ℕ)
      → read_meta c c.codecs.log_id node.meta meta_purged ≡ done purged
      → normalized c node applied purged dels ≡ done after
      → Normal node after applied purged dels
  normalized-Normal node after applied purged dels e h =
      elim (Bool-cases (advance_purged applied purged)) [
        | inl moves ↦
            let log = remove_all nat_key c.r.num node.log dels in
            let moved : (write_purged c applied node.meta
                  >>= (λ meta. done (record node { log = log; meta = meta })))
                ≡ done after =
              ground arith in
            bind_done (write_purged c applied node.meta) _ after moved (λ meta wrote same.
              let equal = done_injective _ _ same in
              let log_same : log ≡ after.log = ap (λ n. n.log) equal in
              let meta_same : meta ≡ after.meta = ap (λ n. n.meta) equal in
              record {
                log = (λ k. rw⁻¹ log_same (get-remove_all nat_key c.r.num node.log dels k));
                read =
                    rw moves (
                      rw⁻¹ meta_same (write_purged-read applied purged node.meta meta moves wrote));
                db = sym (ap (λ n. n.db) equal);
              })
        | inr stays ↦
            elim dels
                as (λ d.
                  normalized c node applied purged d ≡ done after
                  → Normal node after applied purged d) [
                    | [] ↦ (λ h'.
                        let same : node ≡ after = done_injective _ _ (ground arith) in
                        record {
                          log = (λ k. rw⁻¹ same refl);
                          read = rw stays (rw⁻¹ same e);
                          db = rw⁻¹ same refl;
                        })
                    | d ∷ ds ↦ (λ h'.
                        let log = remove_all nat_key c.r.num node.log (d ∷ ds) in
                        let moved : Node c = record node { log = log } in
                        let same : moved ≡ after = done_injective _ _ (ground arith) in
                        record {
                          log =
                              (λ k. rw⁻¹ same (get-remove_all nat_key c.r.num node.log (d ∷ ds) k));
                          read = rw stays (rw⁻¹ same e);
                          db = rw⁻¹ same refl;
                        })
                  ]
              h
      ]

  -- what a normalized node holds of the log before it
  abbrev pub Contiguous : Node c → Node c → Option (LogId c.o) → Option (LogId c.o) → Type 0
  Contiguous node after applied purged =
      let start = start_after (or_else (index_of applied) (index_of purged)) in
      (last : ℕ) × ((start ≤ last)
        × ((k : ℕ)
            → c.r.num.get after.log k
              ≡ (if leb start k && ltb k last then c.r.num.get node.log k else none))
        × ((k : ℕ) → start ≤ k → k < last → is_some (c.r.num.get after.log k) ≡ true)
        × (c.r.num.get node.log last ≡ none)
        × (read_meta c c.codecs.log_id after.meta meta_purged
            ≡ done (if advance_purged applied purged then applied else purged))
        × (after.db ≡ node.db))

  -- When the indices of the log have next ones and the normalization succeeds, the log is the run of the
  -- rows that stand, without a gap, from the first index after the applied id (the purged one when none
  -- is applied) up to the first index that had no row: each of them is there, unchanged, and no other
  -- row is. The purged id is the applied one when it was behind it, else what it was; the tables of the
  -- store are untouched.
  pub normalize_raft_log-Contiguous :
      (node after : Node c) (applied purged : Option (LogId c.o))
      → read_meta c c.codecs.log_id node.meta meta_applied ≡ done applied
      → read_meta c c.codecs.log_id node.meta meta_purged ≡ done purged
      → has_next (or_else (index_of applied) (index_of purged)) ≡ true
      → All (λ row. row.0 < 2 ^ 64 - 1) (c.r.num.iter node.log)
      → normalize_raft_log c node ≡ done after
      → Contiguous node after applied purged
  unfolding normalize_raft_log
  normalize_raft_log-Contiguous node after applied purged e f next small h =
      let floor = or_else (index_of applied) (index_of purged) in
      let start = start_after floor in
      let rows = c.r.num.iter node.log in
      let kept =
        to_delete-Kept floor start rows (c.r.num.iter-Ascending node.log) small
          (start-NoneBefore floor rows) (above_start floor next) in
      let run : normalized c node applied purged (to_delete floor start false rows) ≡ done after =
        rw (e, f) at h in
      let n = normalized-Normal node after applied purged _ f run in
      let reads : (k : ℕ)
          → c.r.num.get after.log k
            ≡ (if leb start k && ltb k kept.last then c.r.num.get node.log k else none) =
        (λ k. elim (Option-cases (c.r.num.get node.log k)) [
          | inl x ↦ ground (arith, n.log k, kept.deleted k, c.r.num.lookup-iter node.log k)
          | inr (v, x) ↦ ground (arith, n.log k, kept.deleted k, c.r.num.lookup-iter node.log k)
        ]) in
      (
        kept.last,
        (
          kept.from,
          reads,
          (λ k p q. ground (arith, reads k, kept.present k p q, c.r.num.lookup-iter node.log k)),
          sym (c.r.num.lookup-iter node.log kept.last) ∙ kept.stops,
          n.read,
          n.db,
        ),
      )
