-- ===== src/Raft/Sample.antt =====
-- A cluster for the examples: numbers as terms, votes and members, and a plain encoding in which every
-- text starts with a brace.
use hyperion_vault.Prelude.{
  ℕ, ◌≡◌, refl, List, [], ◌∷◌, false, Option, none, some, Bytes, bytes_eq, arith,
}
use hyperion_vault.Store.Redb.Sample.{sample}
use hyperion_vault.Store.Redb.Sample.Coder.{Coder, nat, both, via, option, items, whole, decode-put}
use hyperion_vault.Store.Redb.Sample.Records.{text}
use hyperion_vault.Store.Engine.{empty_db}
use hyperion_vault.Raft.Types.{
  Openraft, LogId, StoredMembership, SnapshotData, Payload, blank, normal, membership, Entry,
  is_json_null, MetaCodec, Cluster, Node,
}

abbrev pub plain_raft : Openraft
plain_raft = record {
  LeaderId = ℕ;
  leader_text = λ n. n ∷ [];
  index_text = λ n. n ∷ [];
  Vote = ℕ;
  Member = ℕ;
  no_member = 0;
}

is_json_null-brace : (s : Bytes) → is_json_null (123 ∷ s) ≡ false
unfolding is_json_null bytes_eq
is_json_null-brace s = ground arith

abbrev unbraced : {A : Type 0} → Coder A → Bytes → Option A
unbraced a [] = none
unbraced a (c ∷ s) = whole (a.take s)

pub unbraced-put :
    {A : Type 0} (a : Coder A) (x : A) (row : Bytes)
    → some (123 ∷ a.put x []) ≡ some row
    → unbraced a row ≡ some x
unbraced-put a x row e = let same : 123 ∷ a.put x [] ≡ row = cc in rw⁻¹ same (decode-put a x _ refl)

pub braced-not_null :
    {A : Type 0} (a : Coder A) (x : A) (row : Bytes)
    → some (123 ∷ a.put x []) ≡ some row
    → is_json_null row ≡ false
braced-not_null a x row e =
    let same : 123 ∷ a.put x [] ≡ row = cc in rw⁻¹ same (is_json_null-brace _)

abbrev braced : {A : Type 0} → Coder A → MetaCodec A
braced a = record {
  codec = record {
    encode = λ x. some (123 ∷ a.put x []);
    decode = unbraced a;
    decode-encode = unbraced-put a;
  };
  encode-not_null = braced-not_null a;
}

abbrev log_id : Coder (LogId plain_raft)
log_id =
    via (both nat nat) (λ p. record { leader_id = p.0; index = p.1 }) (λ l. (l.leader_id, l.index))
      (λ l. refl)

abbrev members : Coder (StoredMembership plain_raft)
members =
    via (both (option log_id) nat) (λ p. record { log_id = p.0; membership = p.1 })
      (λ m. (m.log_id, m.membership)) (λ m. refl)

abbrev rows : Coder (List (Bytes × Bytes))
rows = items (both text text)

abbrev snapshot : Coder (SnapshotData plain_raft)
snapshot =
    via
      (both rows
        (both rows (both rows (both rows (both rows (both rows (both (option log_id) members)))))))
      (λ p. record {
        secrets = p.0;
        versions = p.1.0;
        roles = p.1.1.0;
        tokens = p.1.1.1.0;
        tokens_by_name = p.1.1.1.1.0;
        kms_rewrap = p.1.1.1.1.1.0;
        last_applied = p.1.1.1.1.1.1.0;
        members = p.1.1.1.1.1.1.1;
      })
      (λ d. (
        d.secrets,
        (
          d.versions,
          (d.roles, (d.tokens, (d.tokens_by_name, (d.kms_rewrap, (d.last_applied, d.members))))),
        ),
      ))
      (λ d. refl)

-- entries with a command are not encoded here
abbrev encode_entry : Entry plain_raft → Option Bytes
encode_entry entry = elim entry.payload [
  | blank ↦ some (entry.log_id.leader_id ∷ entry.log_id.index ∷ [])
  | normal command ↦ none
  | membership member ↦ some (entry.log_id.leader_id ∷ entry.log_id.index ∷ member ∷ [])
]

abbrev decode_entry : Bytes → Option (Entry plain_raft)
decode_entry (l ∷ i ∷ []) =
    some (record { log_id = record { leader_id = l; index = i }; payload = blank })
decode_entry (l ∷ i ∷ m ∷ []) =
    some (record { log_id = record { leader_id = l; index = i }; payload = membership m })
decode_entry _ = none

pub decode-encode_payload :
    (l : LogId plain_raft) (payload : Payload plain_raft) (row : Bytes)
    → encode_entry (record { log_id = l; payload = payload }) ≡ some row
    → decode_entry row ≡ some (record { log_id = l; payload = payload })
decode-encode_payload l blank row e =
    let same : l.leader_id ∷ l.index ∷ [] ≡ row = cc in rw⁻¹ same refl
decode-encode_payload l (normal command) row e = absurd (cc)
decode-encode_payload l (membership m) row e =
    let same : l.leader_id ∷ l.index ∷ m ∷ [] ≡ row = cc in rw⁻¹ same refl

abbrev pub cluster : Cluster
cluster = record {
  r = sample;
  o = plain_raft;
  codecs = record {
    log_id = braced log_id;
    members = braced members;
    vote = braced nat;
    bytes = braced text;
    entry = record {
      encode = encode_entry;
      decode = decode_entry;
      decode-encode = λ entry. decode-encode_payload entry.log_id entry.payload;
    };
    snapshot = record {
      encode = λ x. some (snapshot.put x []);
      decode = λ row. whole (snapshot.take row);
      decode-encode = decode-put snapshot;
    };
  };
}

abbrev pub at_index : ℕ → LogId plain_raft
at_index i = record { leader_id = 1; index = i }

abbrev pub empty_node : Node cluster
empty_node = record { db = empty_db sample; log = sample.num.new; meta = sample.str.new }
