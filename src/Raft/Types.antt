-- ===== src/Raft/Types.antt =====
-- raft/types.rs and raft/store.rs: entries, snapshots and their metadata. The types of openraft and
-- the JSON encodings are parameters; the two tables of raft stand beside those of the store.
use hyperion_vault.Prelude.{
  ℕ, ◌^◌, ◌≡◌, refl, ap, arith, List, [], ◌∷◌, Bool, false, ◌||◌, Option, none, some, Bytes, ◌==◌,
  bytes_eq, codes, if◌then◌else◌, ◌⊎◌, inl, inr,
}
use hyperion_vault.Store.Model.{
  Command, Message, not_found, conflict, version_conflict, StoreResult, ok, err,
}
use hyperion_vault.Store.Redb.{Storage, Codec}
use hyperion_vault.Store.Db.{Db}

-- what openraft brings: the id of a leader's term with its text, votes and the members of a cluster
pub record Openraft : Type 1 where
  pub LeaderId : Type 0
  pub leader_text : LeaderId → Bytes
  pub index_text : ℕ → Bytes
  pub Vote : Type 0
  pub Member : Type 0
  pub no_member : Member

pub record LogId (o : Openraft) : Type 0 where
  pub leader_id : o.LeaderId
  pub index : ℕ

pub record StoredMembership (o : Openraft) : Type 0 where
  pub log_id : Option (LogId o)
  pub membership : o.Member

pub data Payload (o : Openraft) : Type 0 where
  blank : Payload o
  normal : Command → Payload o
  membership : o.Member → Payload o

pub record Entry (o : Openraft) : Type 0 where
  pub log_id : LogId o
  pub payload : Payload o

pub record SnapshotData (o : Openraft) : Type 0 where
  pub secrets : List (Bytes × Bytes)
  pub versions : List (Bytes × Bytes)
  pub roles : List (Bytes × Bytes)
  pub tokens : List (Bytes × Bytes)
  pub tokens_by_name : List (Bytes × Bytes)
  pub kms_rewrap : List (Bytes × Bytes)
  pub last_applied : Option (LogId o)
  pub members : StoredMembership o

pub record SnapshotMeta (o : Openraft) : Type 0 where
  pub last_log_id : Option (LogId o)
  pub last_membership : StoredMembership o
  pub snapshot_id : Bytes

pub record Snapshot (o : Openraft) : Type 0 where
  pub meta : SnapshotMeta o
  pub snapshot : Bytes

pub data ApplyResult : Type 0 where
  applied not_there stale : ApplyResult
  clashed : Message → ApplyResult

-- `outcome_to_result` of raft/node.rs
unfoldable pub outcome_to_result : ApplyResult → StoreResult (Unit {0})
outcome_to_result applied = ok tt
outcome_to_result not_there = err not_found
outcome_to_result (clashed message) = err (conflict message)
outcome_to_result stale = err version_conflict

-- the result of a method of openraft's storage
pub data Outcome {ℓ} (A : Type ℓ) : Type ℓ where
  done : A → Outcome A
  storage_error : Outcome A

pub Outcome-cases : {A : Type 0} (x : Outcome A) → ((a : A) × (x ≡ done a)) ⊎ (x ≡ storage_error)
Outcome-cases (done a) = inl (a, refl)
Outcome-cases storage_error = inr refl

infixl 5 ◌>>=◌
abbrev pub ◌>>=◌ {ℓ κ} : {A : Type ℓ} {B : Type κ} → Outcome A → (A → Outcome B) → Outcome B
done a >>= f = f a
storage_error >>= f = storage_error

abbrev pub encoded : {A : Type 0} → Codec A → A → Outcome Bytes
encoded codec a = elim (codec.encode a) [ none ↦ storage_error | some row ↦ done row ]

-- a chain that succeeds has a first step that does
pub bind_done :
    {A B C : Type 0} (x : Outcome A) (f : A → Outcome B) (b : B)
    → (x >>= f) ≡ done b
    → ((a : A) → x ≡ done a → f a ≡ done b → C)
    → C
bind_done (done a) f b h k = k a refl h
bind_done storage_error f b h k = absurd (cc)

abbrev done_or : {A : Type 0} → A → Outcome A → A
done_or a (done b) = b
done_or a storage_error = a

pub done_injective : {A : Type 0} (a b : A) → done a ≡ done b → a ≡ b
done_injective a b h = ap (done_or a) h

pub encoded_done :
    {A : Type 0} (codec : Codec A) (a : A) (row : Bytes)
    → encoded codec a ≡ done row
    → codec.encode a ≡ some row
encoded_done codec a row h = ground arith

-- white space of `trim_ascii`
abbrev pub is_ascii_space : ℕ → Bool
is_ascii_space c = c == 32 || c == 9 || c == 10 || c == 12 || c == 13

unfoldable pub trim_ascii_start : Bytes → Bytes
trim_ascii_start [] = []
trim_ascii_start (c ∷ s) = let rest = trim_ascii_start s in if is_ascii_space c then rest else c ∷ s

unfoldable pub trim_ascii_end : Bytes → Bytes
trim_ascii_end [] = []
trim_ascii_end (c ∷ s) = elim (trim_ascii_end s) [
  | [] ↦ if is_ascii_space c then [] else c ∷ []
  | d ∷ rest ↦ c ∷ d ∷ rest
]

unfoldable pub is_json_null : Bytes → Bool
unfolding trim_ascii_start trim_ascii_end
is_json_null bytes = bytes_eq (trim_ascii_end (trim_ascii_start bytes)) (codes "null")

-- an encoding whose texts are never the JSON `null`, as those of objects and arrays are
pub record MetaCodec (A : Type 0) : Type 0 where
  pub codec : Codec A
  pub encode-not_null : (a : A) (row : Bytes) → codec.encode a ≡ some row → is_json_null row ≡ false

pub record RaftCodecs (o : Openraft) : Type 0 where
  pub log_id : MetaCodec (LogId o)
  pub members : MetaCodec (StoredMembership o)
  pub vote : MetaCodec o.Vote
  pub bytes : MetaCodec Bytes
  pub entry : Codec (Entry o)
  pub snapshot : Codec (SnapshotData o)

-- what a node of a cluster stands on
pub record Cluster : Type 1 where
  pub r : Storage
  pub o : Openraft
  pub codecs : RaftCodecs o

-- the tables of a node: those of the store, `raft_log` and `raft_meta`
pub record Node (c : Cluster) : Type 0 where
  pub db : Db c.r
  pub log : c.r.num.Table
  pub meta : c.r.str.Table

abbrev pub meta_vote : Bytes
meta_vote = codes "vote"

abbrev pub meta_purged : Bytes
meta_purged = codes "last_purged"

abbrev pub meta_applied : Bytes
meta_applied = codes "last_applied"

abbrev pub meta_membership : Bytes
meta_membership = codes "membership"

abbrev pub meta_snapshot : Bytes
meta_snapshot = codes "snapshot"

abbrev pub max_plausible_log_index : ℕ
max_plausible_log_index = 2 ^ 52

abbrev pub decoded_meta : {A : Type 0} → Codec A → Bytes → Outcome (Option A)
decoded_meta codec row = elim (codec.decode row) [ none ↦ storage_error | some a ↦ done (some a) ]

module _ (c : Cluster) where
  unfoldable pub read_meta : {A : Type 0} → MetaCodec A → c.r.str.Table → Bytes → Outcome (Option A)
  unfolding is_json_null
  read_meta codec table key = elim (c.r.str.get table key) [
    | none ↦ done none
    | some row ↦ if is_json_null row then done none else decoded_meta codec.codec row
  ]

  unfoldable pub write_meta :
      {A : Type 0} → MetaCodec A → c.r.str.Table → Bytes → A → Outcome c.r.str.Table
  write_meta codec table key a = do row ← encoded codec.codec a; done (c.r.str.insert table key row)
