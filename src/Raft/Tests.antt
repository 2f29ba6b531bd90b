-- ===== src/Raft/Tests.antt =====
-- Runs of a node of raft on the sample tables.
use hyperion_vault.Prelude.{ℕ, ◌≡◌, refl, List, [], ◌∷◌, none, some, bytes_eq, arith, codes, pos}
use hyperion_vault.Store.Model.{delete_secret, touch_token, is_local}
use hyperion_vault.Store.Redb.{bytes_key}
use hyperion_vault.Store.Redb.Extensional.{sorted_table-ext}
use hyperion_vault.Store.Redb.Sample.{sample}
use hyperion_vault.Store.Examples.{db_password, one_secret}
use hyperion_vault.Raft.Types.{
  Payload, blank, normal, membership, Entry, Outcome, done, storage_error, Node, Snapshot,
  meta_applied, read_meta,
}
use hyperion_vault.Raft.Log.{normalize_raft_log}
use hyperion_vault.Raft.Machine.{apply}
use hyperion_vault.Raft.Snapshot.{build_snapshot, get_current_snapshot, install_snapshot}
use hyperion_vault.Raft.Refine.{write_one, write_all}
use hyperion_vault.Raft.Batch.{TakenAsWritten, apply-write_all, apply-internal}
use hyperion_vault.Raft.Replicas.{apply-replicas, Both, SameAnswer, RowsDetermine}
use hyperion_vault.Raft.Install.{SameTables, InstalledFrom, install_snapshot-build_snapshot}
use hyperion_vault.Raft.Normalize.{Contiguous, normalize_raft_log-Contiguous}
use hyperion_vault.Raft.Stale.{StaleAfter, get_current_snapshot-apply}
use hyperion_vault.Raft.Sample.{plain_raft, cluster, at_index, empty_node}

abbrev node : Node cluster
node = record empty_node { db = one_secret }

abbrev entry_of : ℕ → Payload plain_raft → Entry plain_raft
entry_of i payload = record { log_id = at_index i; payload = payload }

-- the deletion of a secret twice, a change of members and a blank entry
abbrev deletion : Entry plain_raft
deletion = entry_of 3 (normal (delete_secret db_password))

abbrev later : List (Entry plain_raft)
later =
    entry_of 4 (normal (delete_secret db_password))
    ∷ entry_of 5 (membership 7)
    ∷ entry_of 6 blank
    ∷ []

apply-write_all_example : TakenAsWritten cluster 1 deletion later node
unfolding write_all write_one hyperion_vault.Store.Engine.apply
    hyperion_vault.Store.Apply.apply_command hyperion_vault.Store.Apply.Secrets.delete sample
    hyperion_vault.Store.Apply.Secrets.create hyperion_vault.Core.Names.is_valid_secret_name
    hyperion_vault.Core.Names.name_char hyperion_vault.Core.Names.is_valid_secret_version
    hyperion_vault.Store.Engine.empty_db bytes_eq
apply-write_all_example = apply-write_all cluster (λ a. refl) (λ a. refl) 1 deletion later node refl

-- a row of a token that does not decode
abbrev broken : Node cluster
broken = record node {
  db = record one_secret { tokens = sample.str.insert one_secret.tokens (codes "t") [] };
}

abbrev touching : List (Entry plain_raft)
touching = deletion ∷ entry_of 4 (normal (touch_token (codes "t") (pos 5))) ∷ entry_of 5 blank ∷ []

apply-internal_example : apply cluster 1 touching broken ≡ storage_error
unfolding write_all write_one hyperion_vault.Store.Engine.apply
    hyperion_vault.Store.Apply.apply_command hyperion_vault.Store.Apply.Secrets.delete sample
    hyperion_vault.Store.Apply.Secrets.create hyperion_vault.Core.Names.is_valid_secret_name
    hyperion_vault.Core.Names.name_char hyperion_vault.Core.Names.is_valid_secret_version
    hyperion_vault.Store.Engine.empty_db bytes_eq hyperion_vault.Store.Apply.Access.touch_token
apply-internal_example = apply-internal cluster 1 touching broken refl

-- another node with the same secrets and an audit log of its own
abbrev other_node : Node cluster
other_node = record node {
  db = record one_secret { audit = sample.num.insert one_secret.audit 4 [] };
}

sample_rows : RowsDetermine cluster
unfolding sample
sample_rows = sorted_table-ext bytes_key

same_tables : SameTables cluster node.db other_node.db
same_tables = record {
  secrets = (λ k. refl);
  versions = (λ k. refl);
  roles = (λ k. refl);
  tokens = (λ k. refl);
  tokens_by_name = (λ k. refl);
  kms_rewrap = (λ k. refl);
}

apply-replicas_example :
    Both cluster
      (SameAnswer cluster)
      (apply cluster 1 (deletion ∷ later) node)
      (apply cluster 2 (deletion ∷ later) other_node)
unfolding is_local
apply-replicas_example =
    apply-replicas cluster 1 2 (deletion ∷ later) node other_node sample_rows refl same_tables

-- a node that has applied the third entry
abbrev applied_three : Node cluster
applied_three = record node {
  log = sample.num.insert (sample.num.insert sample.num.new 3 []) 5 [];
  meta = sample.str.insert sample.str.new meta_applied (123 ∷ 1 ∷ 3 ∷ []);
}

abbrev after_build : Outcome (Snapshot plain_raft × Node cluster)
after_build = build_snapshot cluster applied_three

abbrev snapshot_of : Outcome (Snapshot plain_raft × Node cluster) → Snapshot plain_raft
snapshot_of (done x) = x.0
snapshot_of storage_error = record {
  meta = record {
    last_log_id = none;
    last_membership = record { log_id = none; membership = 0 };
    snapshot_id = [];
  };
  snapshot = [];
}

abbrev node_of : Outcome (Snapshot plain_raft × Node cluster) → Node cluster
node_of (done x) = x.1
node_of storage_error = empty_node

install_snapshot-build_snapshot_example :
    InstalledFrom cluster applied_three other_node (snapshot_of after_build)
unfolding build_snapshot sample bytes_eq hyperion_vault.Raft.Snapshot.check_snapshot_meta
    hyperion_vault.Raft.Snapshot.check_snapshot_rows hyperion_vault.Store.Apply.Secrets.create
    hyperion_vault.Core.Names.is_valid_secret_name hyperion_vault.Core.Names.name_char
    hyperion_vault.Core.Names.is_valid_secret_version hyperion_vault.Store.Engine.empty_db
    hyperion_vault.Store.Keys.split_version_key hyperion_vault.Store.Keys.split_once
    hyperion_vault.Store.Keys.version_key hyperion_vault.Store.Keys.version_field
    hyperion_vault.Store.Keys.parse_i32_digits hyperion_vault.Core.Decimal.digits_value
install_snapshot-build_snapshot_example =
    install_snapshot-build_snapshot cluster (λ a. refl) (λ a. refl) applied_three
      (node_of after_build) other_node (snapshot_of after_build) refl refl refl

get_current_snapshot-apply_example :
    StaleAfter cluster 1
      (entry_of 4 (normal (delete_secret db_password)))
      []
      (node_of after_build)
      (snapshot_of after_build)
unfolding build_snapshot sample bytes_eq write_all write_one hyperion_vault.Store.Engine.apply
    hyperion_vault.Store.Apply.apply_command hyperion_vault.Store.Apply.Secrets.delete
    hyperion_vault.Store.Apply.Secrets.create hyperion_vault.Core.Names.is_valid_secret_name
    hyperion_vault.Core.Names.name_char hyperion_vault.Core.Names.is_valid_secret_version
    hyperion_vault.Store.Engine.empty_db
get_current_snapshot-apply_example =
    get_current_snapshot-apply cluster applied_three (node_of after_build) (snapshot_of after_build)
      refl (λ a. refl) (λ a. refl) 1 (entry_of 4 (normal (delete_secret db_password))) [] refl

-- the log has 3, 4, 5 and 8, and the third entry is applied
abbrev gapped : Node cluster
gapped = record applied_three {
  log =
      sample.num.insert
        (sample.num.insert (sample.num.insert (sample.num.insert sample.num.new 3 []) 4 []) 5 []) 8
        [];
}

abbrev mended : Outcome (Node cluster) → Node cluster
mended (done n) = n
mended storage_error = empty_node

normalize_raft_log-Contiguous_example :
    Contiguous cluster gapped (mended (normalize_raft_log cluster gapped)) (some (at_index 3)) none
unfolding read_meta sample bytes_eq normalize_raft_log
normalize_raft_log-Contiguous_example =
    normalize_raft_log-Contiguous cluster gapped (mended (normalize_raft_log cluster gapped))
      (some (at_index 3)) none refl refl refl
      (omega arith, (omega arith, (omega arith, (omega arith, tt)))) refl
