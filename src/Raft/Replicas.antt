-- ===== src/Raft/Replicas.antt =====
-- raft/store.rs: the nodes of a cluster, which apply the same entries. A table of redb is a map from keys
-- to values, so that what it holds is its rows: this is a hypothesis here.
use hyperion_vault.Prelude.{
  ℕ, ◌≡◌, refl, ap, ◌∙◌, List, [], ◌∷◌, ◌++◌, Bool, true, not, Option, none, some, all, arith,
  Bytes,
}
use hyperion_vault.Store.Model.{is_local}
use hyperion_vault.Store.Db.{Db}
use hyperion_vault.Raft.Types.{
  LogId, StoredMembership, Payload, blank, normal, membership, Entry, ApplyResult, applied, Outcome,
  done, storage_error, ◌>>=◌, Cluster, Node, write_meta, meta_applied, meta_membership, MetaCodec,
  encoded,
}
use hyperion_vault.Raft.Machine.{
  result_of_command, Batch, pushed, started, commit_batch, apply_entry, apply_entries, apply,
  write_applied, write_members,
}
use hyperion_vault.Raft.Install.{SameTables}
use hyperion_vault.Raft.Agree.{Alike, apply_command-SameRun}

module _ (c : Cluster) where
  -- the payload of an entry that raft carries: a command which is not local
  abbrev pub is_replicated : Payload c.o → Bool
  is_replicated blank = true
  is_replicated (normal command) = not (is_local command)
  is_replicated (membership member) = true

  record SameBatch (a b : Batch c) : Type 0 where
    db : Alike c.r a.db b.db
    results : a.results ≡ b.results
    last : a.last_applied ≡ b.last_applied
    members : a.members ≡ b.members

  -- both fail, or both succeed with related values
  abbrev pub Both : {A : Type 0} → (A → A → Type 0) → Outcome A → Outcome A → Type 0
  Both Related (done x) (done y) = Related x y
  Both Related storage_error storage_error = Unit
  Both Related _ _ = ⊥

  Both-bind :
      {A B : Type 0} (R : A → A → Type 0) (S : B → B → Type 0) (x y : Outcome A)
      (f g : A → Outcome B)
      → Both R x y
      → ((a b : A) → R a b → Both S (f a) (g b))
      → Both S (x >>= f) (y >>= g)
  Both-bind R S (done x) (done y) f g h step = step x y h
  Both-bind R S storage_error storage_error f g h step = tt
  Both-bind R S (done x) storage_error f g h step = absurd h
  Both-bind R S storage_error (done y) f g h step = absurd h

  after_result :
      (log_id : LogId c.o) (a b : Batch c) (da db : Db c.r)
      → Alike c.r da db
      → SameBatch a b
      → (result other : Option ApplyResult) → result ≡ other
      → Both SameBatch
          (elim result [
            | none ↦ storage_error
            | some x ↦ done (pushed c (record a { db = da }) log_id x)
          ])
          (elim other [
            | none ↦ storage_error
            | some x ↦ done (pushed c (record b { db = db }) log_id x)
          ])
  after_result log_id a b da db alike same none none e = tt
  after_result log_id a b da db alike same (some x) (some y) e = record {
    db = alike;
    results =
        ap (λ xs. xs ++ (x ∷ [])) same.results ∙ ap (λ z. b.results ++ (z ∷ [])) (ground arith);
    last = refl;
    members = same.members;
  }
  after_result log_id a b da db alike same none (some y) e = absurd (cc)
  after_result log_id a b da db alike same (some x) none e = absurd (cc)

  apply_entry-Both :
      (here there : ℕ) (log_id : LogId c.o) (payload : Payload c.o) (a b : Batch c)
      → is_replicated payload ≡ true
      → SameBatch a b
      → let entry : Entry c.o = record { log_id = log_id; payload = payload } in
        Both SameBatch (apply_entry c here entry a) (apply_entry c there entry b)
  unfolding apply_entry
  apply_entry-Both here there log_id blank a b h same = record {
    db = same.db;
    results = ap (λ x. x ++ (applied ∷ [])) same.results;
    last = refl;
    members = same.members;
  }
  apply_entry-Both here there log_id (membership member) a b h same = record {
    db = same.db;
    results = ap (λ x. x ++ (applied ∷ [])) same.results;
    last = refl;
    members = refl;
  }
  apply_entry-Both here there log_id (normal command) a b h same =
      let (result, alike) =
        apply_command-SameRun c.r here there command (ground arith) a.db b.db same.db in
      after_result log_id a b _ _ alike same _ _ (ap result_of_command result)

  apply_entries-Both :
      (here there : ℕ) (entries : List (Entry c.o)) (a b : Batch c)
      → all (λ entry. is_replicated entry.payload) entries ≡ true
      → SameBatch a b
      → Both SameBatch (apply_entries c here entries a) (apply_entries c there entries b)
  unfolding apply_entries
  apply_entries-Both here there [] a b h same = same
  apply_entries-Both here there (entry ∷ entries) a b h same =
      Both-bind SameBatch SameBatch (apply_entry c here entry a) (apply_entry c there entry b)
        (apply_entries c here entries) (apply_entries c there entries)
        (apply_entry-Both here there entry.log_id entry.payload a b (ground arith) same)
        (λ a' b' same'. apply_entries-Both here there entries a' b' (ground arith) same')

  abbrev AlikeAnswer : List ApplyResult × Node c → List ApplyResult × Node c → Type 0
  AlikeAnswer (results, a) (others, b) = (results ≡ others) × Alike c.r a.db b.db

  abbrev Anything : c.r.str.Table → c.r.str.Table → Type 0
  Anything a b = Unit

  Both-same : (row : Outcome Bytes) → Both (λ _ _. Unit) row row
  Both-same (done row) = tt
  Both-same storage_error = tt

  write_meta-Both :
      {A : Type 0} (codec : MetaCodec A) (key : Bytes) (a : A) (t u : c.r.str.Table)
      → Both Anything (write_meta c codec t key a) (write_meta c codec u key a)
  unfolding write_meta
  write_meta-Both codec key a t u =
      Both-bind (λ x y. Unit) Anything (encoded codec.codec a) (encoded codec.codec a) _ _
        (Both-same (encoded codec.codec a)) (λ x y _. tt)

  write_members-Both :
      (members : Option (StoredMembership c.o)) (t u : c.r.str.Table)
      → Both Anything (write_members c members t) (write_members c members u)
  write_members-Both none t u = tt
  write_members-Both (some members) t u =
      write_meta-Both c.codecs.members meta_membership members t u

  write_applied-Both :
      (last : Option (LogId c.o)) (members : Option (StoredMembership c.o)) (t u : c.r.str.Table)
      → Both Anything (write_applied c last members t) (write_applied c last members u)
  write_applied-Both none members t u = tt
  write_applied-Both (some last) members t u =
      Both-bind Anything Anything (write_meta c c.codecs.log_id t meta_applied last)
        (write_meta c c.codecs.log_id u meta_applied last) (write_members c members)
        (write_members c members) (write_meta-Both c.codecs.log_id meta_applied last t u)
        (λ t' u' _. write_members-Both members t' u')

  commit_batch-Both :
      (a b : Node c) (x y : Batch c)
      → SameBatch x y
      → Both AlikeAnswer (commit_batch c a x) (commit_batch c b y)
  commit_batch-Both a b x y same =
      Both-bind Anything AlikeAnswer (write_applied c x.last_applied x.members a.meta)
        (write_applied c y.last_applied y.members b.meta) _ _
        (rw (same.last, same.members) (write_applied-Both y.last_applied y.members a.meta b.meta))
        (λ t u _. (same.results, same.db))

  apply-Alike :
      (here there : ℕ) (entries : List (Entry c.o)) (a b : Node c)
      → all (λ entry. is_replicated entry.payload) entries ≡ true
      → Alike c.r a.db b.db
      → Both AlikeAnswer (apply c here entries a) (apply c there entries b)
  unfolding apply
  apply-Alike here there entries a b h alike =
      Both-bind SameBatch AlikeAnswer (apply_entries c here entries (started c a.db))
        (apply_entries c there entries (started c b.db)) _ _
        (apply_entries-Both here there entries (started c a.db) (started c b.db) h
          (record { db = alike; results = refl; last = refl; members = refl }))
        (λ x y same. commit_batch-Both a b x y same)

  -- a table holds nothing but its rows
  abbrev pub RowsDetermine : Type 0
  RowsDetermine = (t u : c.r.str.Table) → ((k : Bytes) → c.r.str.get t k ≡ c.r.str.get u k) → t ≡ u

  SameTables-Alike : RowsDetermine → (a b : Db c.r) → SameTables c a b → Alike c.r a b
  SameTables-Alike rows a b same =
      rw
        (
          rows a.secrets b.secrets same.secrets,
          rows a.versions b.versions same.versions,
          rows a.roles b.roles same.roles,
          rows a.tokens b.tokens same.tokens,
          rows a.tokens_by_name b.tokens_by_name same.tokens_by_name,
          rows a.kms_rewrap b.kms_rewrap same.kms_rewrap,
        )
        refl

  Alike-SameTables : (a b : Db c.r) → Alike c.r a b → SameTables c a b
  Alike-SameTables a b alike = record {
    secrets = (λ k. ap (λ db. c.r.str.get db.secrets k) alike);
    versions = (λ k. ap (λ db. c.r.str.get db.versions k) alike);
    roles = (λ k. ap (λ db. c.r.str.get db.roles k) alike);
    tokens = (λ k. ap (λ db. c.r.str.get db.tokens k) alike);
    tokens_by_name = (λ k. ap (λ db. c.r.str.get db.tokens_by_name k) alike);
    kms_rewrap = (λ k. ap (λ db. c.r.str.get db.kms_rewrap k) alike);
  }

  -- two nodes have given the same results and have the same rows in every replicated table
  abbrev pub SameAnswer : List ApplyResult × Node c → List ApplyResult × Node c → Type 0
  SameAnswer (results, a) (others, b) = (results ≡ others) × SameTables c a.db b.db

  Both-SameAnswer :
      (x y : Outcome (List ApplyResult × Node c)) → Both AlikeAnswer x y → Both SameAnswer x y
  Both-SameAnswer (done x) (done y) h = (h.0, Alike-SameTables x.1.db y.1.db h.1)
  Both-SameAnswer storage_error storage_error h = tt
  Both-SameAnswer (done x) storage_error h = absurd h
  Both-SameAnswer storage_error (done y) h = absurd h

  -- If a table holds nothing but its rows, two nodes that have the same rows in every replicated table, and
  -- that apply the same entries of which none holds a local command, both fail or give the same results and
  -- have the same rows in every replicated table again, whatever their ids, lockouts, audit logs and
  -- metadata are.
  pub apply-replicas :
      (here there : ℕ) (entries : List (Entry c.o)) (a b : Node c)
      → RowsDetermine
      → all (λ entry. is_replicated entry.payload) entries ≡ true
      → SameTables c a.db b.db
      → Both SameAnswer (apply c here entries a) (apply c there entries b)
  apply-replicas here there entries a b rows h same =
      Both-SameAnswer (apply c here entries a) (apply c there entries b)
        (apply-Alike here there entries a b h (SameTables-Alike rows a.db b.db same))
