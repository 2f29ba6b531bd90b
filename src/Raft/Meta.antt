-- ===== src/Raft/Meta.antt =====
-- raft/store.rs: the rows of `raft_meta`, read back after they are written.
use hyperion_vault.Prelude.{
  ◌≡◌, inl, inr, false, true, Bytes, some, Option-cases, bytes_eq, bytes_eq_iff, arith, is_some,
}
use hyperion_vault.Raft.Types.{done, MetaCodec, Cluster, read_meta, write_meta}

module _ (c : Cluster) {A : Type 0} (codec : MetaCodec A) where
  abbrev pub Encodes : Type 0
  Encodes = (a : A) → is_some (codec.codec.encode a) ≡ true

  pub read_meta-write_meta :
      (table after : c.r.str.Table) (key : Bytes) (a : A)
      → write_meta c codec table key a ≡ done after
      → read_meta c codec after key ≡ done (some a)
  unfolding read_meta write_meta
  read_meta-write_meta table after key a h = elim (Option-cases (codec.codec.encode a)) [
    | inl e ↦ absurd (ground arith)
    | inr (row, e) ↦ ground (
      arith,
      c.r.str.get-insert table key key row,
      bytes_eq_iff key key,
      codec.encode-not_null a row e,
      codec.codec.decode-encode a row e,
    )
  ]

  pub write_meta_total :
      Encodes
      → (table : c.r.str.Table) (key : Bytes) (a : A)
      → (after : c.r.str.Table) × (write_meta c codec table key a ≡ done after)
  unfolding write_meta
  write_meta_total total table key a = elim (Option-cases (codec.codec.encode a)) [
    | inl e ↦ absurd (ground (arith, total a))
    | inr (row, e) ↦ (c.r.str.insert table key row, ground arith)
  ]

module _ (c : Cluster) {A B : Type 0} (codec : MetaCodec A) (other : MetaCodec B) where
  pub read_meta-other :
      (table after : c.r.str.Table) (key j : Bytes) (a : A)
      → bytes_eq key j ≡ false
      → write_meta c codec table key a ≡ done after
      → read_meta c other after j ≡ read_meta c other table j
  unfolding read_meta write_meta
  read_meta-other table after key j a apart h = elim (Option-cases (codec.codec.encode a)) [
    | inl e ↦ absurd (ground arith)
    | inr (row, e) ↦ ground (arith, c.r.str.get-insert table key j row)
  ]
