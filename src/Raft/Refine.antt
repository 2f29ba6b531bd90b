-- ===== src/Raft/Refine.antt =====
-- raft/store.rs: a batch of entries, beside the store of a single node.
use hyperion_vault.Prelude.{
  ℕ, ◌≡◌, ◌≢◌, refl, sym, ap, ◌∙◌, inl, inr, ◌||◌, List, [], ◌∷◌, ◌++◌, map, any, Bool, true, false,
  Option, none, some, Option-cases, arith,
}
use mathlib.Core.List.{append-nil, append_assoc}
use hyperion_vault.Store.Model.{
  Command, not_found, conflict, version_conflict, internal, StoreResult, ok, err,
}
use hyperion_vault.Store.Db.{Db, StoreResult-cases}
use hyperion_vault.Store.Apply.{apply_command}
use hyperion_vault.Store.Atomic.{apply_command-refused_unchanged}
use hyperion_vault.Store.Engine
use hyperion_vault.Raft.Types.{
  LogId, StoredMembership, Payload, blank, normal, membership, Entry, ApplyResult, applied,
  outcome_to_result, done, storage_error, Cluster,
}
use hyperion_vault.Raft.Machine.{result_of_command, Batch, pushed, apply_entry, apply_entries}

abbrev pub is_internal : StoreResult (Unit {0}) → Bool
is_internal (err internal) = true
is_internal _ = false

module _ (c : Cluster) where
  -- the specification: a store that takes the commands one at a time, each in its own transaction
  unfoldable pub write_one : ℕ → Entry c.o → Db c.r → StoreResult (Unit {0}) × Db c.r
  write_one node_id entry db = elim entry.payload [
    | blank ↦ (ok tt, db)
    | normal command ↦ Engine.apply c.r node_id command db
    | membership member ↦ (ok tt, db)
  ]

  unfoldable pub write_all : ℕ → List (Entry c.o) → Db c.r → List (StoreResult (Unit {0})) × Db c.r
  write_all node_id [] db = ([], db)
  write_all node_id (entry ∷ entries) db =
      let (result, next) = write_one node_id entry db in
      let (results, last) = write_all node_id entries next in (result ∷ results, last)

  outcome_to_result-result_of_command :
      (result : StoreResult (Unit {0})) (a : ApplyResult)
      → result_of_command result ≡ some a
      → outcome_to_result a ≡ result
  unfolding result_of_command outcome_to_result
  outcome_to_result-result_of_command (ok tt) a h = ground arith
  outcome_to_result-result_of_command (err not_found) a h = ground arith
  outcome_to_result-result_of_command (err (conflict message)) a h = ground arith
  outcome_to_result-result_of_command (err version_conflict) a h = ground arith
  outcome_to_result-result_of_command (err internal) a h = cc

  result_of_command-none :
      (result : StoreResult (Unit {0})) → result_of_command result ≡ none → result ≡ err internal
  unfolding result_of_command
  result_of_command-none (ok tt) h = cc
  result_of_command-none (err not_found) h = cc
  result_of_command-none (err (conflict message)) h = cc
  result_of_command-none (err version_conflict) h = cc
  result_of_command-none (err internal) h = refl

  abbrev pub last_id : Option (LogId c.o) → List (Entry c.o) → Option (LogId c.o)
  last_id last [] = last
  last_id last (entry ∷ entries) = last_id (some entry.log_id) entries

  abbrev pub member_or : Option (StoredMembership c.o) → Entry c.o → Option (StoredMembership c.o)
  member_or members entry = elim entry.payload [
    | blank ↦ members
    | normal command ↦ members
    | membership member ↦ some (record { log_id = some entry.log_id; membership = member })
  ]

  abbrev pub last_members :
      Option (StoredMembership c.o) → List (Entry c.o) → Option (StoredMembership c.o)
  last_members members [] = members
  last_members members (entry ∷ entries) = last_members (member_or members entry) entries

  -- what a batch holds once the entries are through
  abbrev pub Agrees : Batch c → List (StoreResult (Unit {0})) → Db c.r → Type 0
  Agrees b results db = (map outcome_to_result b.results ≡ results) × (b.db ≡ db)

  not_internal-committed :
      (node_id : ℕ) (command : Command) (db : Db c.r)
      → is_internal (Engine.apply c.r node_id command db).0 ≡ false
      → Engine.apply c.r node_id command db ≡ apply_command c.r node_id command db
  unfolding Engine.apply
  not_internal-committed node_id command db h =
      elim (StoreResult-cases (apply_command c.r node_id command db).0) [
        | inl (a, e) ↦ ground arith
        | inr (e, failed) ↦
            let other : e ≢ internal = (λ same. absurd (ground arith)) in
            let kept = apply_command-refused_unchanged c.r node_id command db e failed other in
            ground arith
      ]

  map-append_one :
      (xs : List ApplyResult) (a : ApplyResult)
      → map outcome_to_result (xs ++ (a ∷ []))
        ≡ map outcome_to_result xs ++ (outcome_to_result a ∷ [])
  map-append_one [] a = refl
  map-append_one (x ∷ xs) a = ap (◌∷◌ (outcome_to_result x)) (map-append_one xs a)

  -- an entry has gone into a batch as it goes into a single store
  pub record Step (node_id : ℕ) (entry : Entry c.o) (b : Batch c) : Type 0 where
    pub batch : Batch c
    pub taken : apply_entry c node_id entry b ≡ done batch
    pub results :
        map outcome_to_result batch.results
        ≡ map outcome_to_result b.results ++ ((write_one node_id entry b.db).0 ∷ [])
    pub db : batch.db ≡ (write_one node_id entry b.db).1
    pub last : batch.last_applied ≡ some entry.log_id
    pub members : batch.members ≡ member_or b.members entry

  pub apply_entry-Step :
      (node_id : ℕ) (log_id : LogId c.o) (payload : Payload c.o) (b : Batch c)
      → let entry : Entry c.o = record { log_id = log_id; payload = payload } in
        is_internal (write_one node_id entry b.db).0 ≡ false → Step node_id entry b
  unfolding apply_entry write_one outcome_to_result
  apply_entry-Step node_id log_id blank b h = record {
    batch = _;
    taken = refl;
    results = map-append_one b.results applied;
    db = refl;
    last = refl;
    members = refl;
  }
  apply_entry-Step node_id log_id (membership member) b h = record {
    batch = _;
    taken = refl;
    results = map-append_one b.results applied;
    db = refl;
    last = refl;
    members = refl;
  }
  apply_entry-Step node_id log_id (normal command) b h =
      let run = apply_command c.r node_id command b.db in
      let same : Engine.apply c.r node_id command b.db ≡ run =
        not_internal-committed node_id command b.db h in
      elim (Option-cases (result_of_command run.0)) [
        | inl e ↦ absurd (let x = result_of_command-none run.0 e in ground arith)
        | inr (a, e) ↦
            let back = outcome_to_result-result_of_command run.0 a e in
            record {
              batch = pushed c (record b { db = run.1 }) log_id a;
              taken = rw (apply_entry, e);
              results =
                  map-append_one b.results a
                  ∙ ap (λ x. map outcome_to_result b.results ++ (x ∷ []))
                      (back ∙ sym (ap (λ p. p.0) same));
              db = sym (ap (λ p. p.1) same);
              last = refl;
              members = refl;
            }
      ]

  pub internal_stops :
      (node_id : ℕ) (log_id : LogId c.o) (payload : Payload c.o) (b : Batch c)
      → let entry : Entry c.o = record { log_id = log_id; payload = payload } in
        is_internal (write_one node_id entry b.db).0 ≡ true
        → apply_entry c node_id entry b ≡ storage_error
  unfolding apply_entry write_one
  internal_stops node_id log_id blank b h = cc
  internal_stops node_id log_id (membership member) b h = cc
  internal_stops node_id log_id (normal command) b h =
      elim (StoreResult-cases (apply_command c.r node_id command b.db).0) [
        | inl (a, e) ↦ absurd (unfold Engine.apply in ground arith)
        | inr (e, failed) ↦ unfold Engine.apply result_of_command in ground arith
      ]

  pub record Batched (node_id : ℕ) (entries : List (Entry c.o)) (b : Batch c) : Type 0 where
    pub batch : Batch c
    pub taken : apply_entries c node_id entries b ≡ done batch
    pub results :
        map outcome_to_result batch.results
        ≡ map outcome_to_result b.results ++ (write_all node_id entries b.db).0
    pub db : batch.db ≡ (write_all node_id entries b.db).1
    pub last : batch.last_applied ≡ last_id b.last_applied entries
    pub members : batch.members ≡ last_members b.members entries

  any_append_free : (x y : Bool) → (x || y) ≡ false → (x ≡ false) × (y ≡ false)
  any_append_free x y h = ground arith

  pub apply_entries-Batched :
      (node_id : ℕ) (entries : List (Entry c.o)) (b : Batch c)
      → any is_internal (write_all node_id entries b.db).0 ≡ false
      → Batched node_id entries b
  unfolding apply_entries write_all
  apply_entries-Batched node_id [] b h = record {
    batch = b;
    taken = refl;
    results = sym (append-nil _);
    db = refl;
    last = refl;
    members = refl;
  }
  apply_entries-Batched node_id (entry ∷ entries) b h =
      let (first, others) = any_append_free _ _ h in
      let step = apply_entry-Step node_id entry.log_id entry.payload b first in
      let rest = apply_entries-Batched node_id entries step.batch (rw step.db others) in
      record {
        batch = rest.batch;
        taken = rw (step.taken, rest.taken);
        results =
            rest.results
            ∙ (rw (step.results, step.db)
                (append_assoc (map outcome_to_result b.results)
                  ((write_one node_id entry b.db).0 ∷ []) _));
        db = rest.db ∙ (rw step.db);
        last = rest.last ∙ (rw step.last);
        members = rest.members ∙ (rw step.members);
      }
