-- ===== src/Store/Redb/Sample.antt =====
-- A store that meets the interface: sorted lists as tables, and a plain encoding of the records. The
-- examples run on it.
pub mod Coder
pub mod Records
use hyperion_vault.Prelude.{
  ◌≡◌, refl, ◌↔◌, List, [], ◌∷◌, Bool, true, false, ◌&&◌, ◌||◌, not, Option, none, some, Bytes,
  if◌then◌else◌, select, select-All, All, All-map, arith, Bool-cases, inl, inr, ap, ℕ, sym,
}
use hyperion_vault.Store.Redb.{
  Key, Kv, Bound, within, lookup, Ascending, Storage, Codec, Codecs, bytes_key, nat_key,
}
use Coder.{codec}
use Records

module _ {K : Type 0} (key : Key K) where
  abbrev insert_row : K → Bytes → List (K × Bytes) → List (K × Bytes)
  insert_row k v [] = (k, v) ∷ []
  insert_row k v (row ∷ rows) =
      let later = row ∷ insert_row k v rows in
      if key.lt k row.0
      then (k, v) ∷ row ∷ rows
      else if key.eq k row.0
      then (k, v) ∷ rows
      else later

  abbrev drop_row : K → List (K × Bytes) → List (K × Bytes)
  drop_row k rows = select (λ row. not (key.eq row.0 k)) rows

  pub lookup-insert_row :
      (k j : K) (v : Bytes) (rows : List (K × Bytes))
      → lookup key j (insert_row k v rows) ≡ (if key.eq k j then some v else lookup key j rows)
  unfolding lookup
  lookup-insert_row k j v [] = refl
  lookup-insert_row k j v (row ∷ rows) =
      ground (
        arith,
        key.eq_iff k row.0,
        key.eq_iff k j,
        key.eq_iff row.0 j,
        lookup-insert_row k j v rows,
      )

  pub lookup-drop_row :
      (k j : K) (rows : List (K × Bytes))
      → lookup key j (drop_row k rows) ≡ (if key.eq k j then none else lookup key j rows)
  unfolding lookup
  lookup-drop_row k j [] = ground arith
  lookup-drop_row k j (row ∷ rows) =
      ground
        (arith, key.eq_iff row.0 k, key.eq_iff k j, key.eq_iff row.0 j, lookup-drop_row k j rows)

  insert_row-All :
      (P : K × Bytes → Type 0) (k : K) (v : Bytes) (rows : List (K × Bytes))
      → P (k, v)
      → All P rows
      → All P (insert_row k v rows)
  insert_row-All P k v [] p h = (p, tt)
  insert_row-All P k v (row ∷ rows) p h = elim (Bool-cases (key.lt k row.0)) [
    | inl before ↦ rw before (p, h)
    | inr e ↦ elim (Bool-cases (key.eq k row.0)) [
      | inl same ↦ rw (e, same) (p, h.1)
      | inr other ↦ rw (e, other) (h.0, insert_row-All P k v rows p h.1)
    ]
  ]

  after_row : (k j : K) → key.lt k j ≡ false → key.eq k j ≡ false → key.lt j k ≡ true
  after_row k j e d = elim (Bool-cases (key.lt j k)) [
    | inl after ↦ after
    | inr not_after ↦ ground (arith, key.lt_total k j e not_after, key.eq_iff k j)
  ]

  pub insert_row-Ascending :
      (k : K) (v : Bytes) (rows : List (K × Bytes))
      → Ascending key rows
      → Ascending key (insert_row k v rows)
  insert_row-Ascending k v [] h = (tt, tt)
  insert_row-Ascending k v (row ∷ rows) h = elim (Bool-cases (key.lt k row.0)) [
    | inl before ↦ rw before (
      (before, All-map _ _ rows (λ other below. key.lt_trans k row.0 other.0 before below) h.0),
      h,
    )
    | inr e ↦ elim (Bool-cases (key.eq k row.0)) [
      | inl same ↦ let here = (key.eq_iff k row.0).0 same in rw (e, same) (rw here h.0, h.1)
      | inr other ↦
          rw (e, other)
            (
              insert_row-All (λ x. key.lt row.0 x.0 ≡ true) k v rows (after_row k row.0 e other)
                  h.0,
              insert_row-Ascending k v rows h.1,
            )
    ]
  ]

  pub drop_row-Ascending :
      (k : K) (rows : List (K × Bytes)) → Ascending key rows → Ascending key (drop_row k rows)
  drop_row-Ascending k [] h = tt
  drop_row-Ascending k (row ∷ rows) h = elim (Bool-cases (key.eq row.0 k)) [
    | inl gone ↦ rw gone (drop_row-Ascending k rows h.1)
    | inr kept ↦ rw kept (select-All _ _ rows h.0, drop_row-Ascending k rows h.1)
  ]

  pub record SortedRows : Type 0 where
    pub rows : List (K × Bytes)
    pub ascending : Ascending key rows

  pub sorted_table : Kv K key
  sorted_table = record {
    Table = SortedRows;
    new = record { rows = []; ascending = tt };
    get = λ t k. lookup key k t.rows;
    insert = λ t k v. record {
      rows = insert_row k v t.rows;
      ascending = insert_row-Ascending k v t.rows t.ascending;
    };
    remove = λ t k. record {
      rows = drop_row k t.rows;
      ascending = drop_row-Ascending k t.rows t.ascending;
    };
    iter = λ t. t.rows;
    range = λ t lo hi. select (within key lo hi) t.rows;
    get-new = λ k. unfold lookup in refl;
    get-insert = λ t k j v. lookup-insert_row k j v t.rows;
    get-remove = λ t k j. lookup-drop_row k j t.rows;
    lookup-iter = λ t k. refl;
    iter-Ascending = λ t. t.ascending;
    range-iter = λ t lo hi. refl;
  }

unfoldable pub sample : Storage
unfolding sorted_table lookup
sample = record {
  str = sorted_table bytes_key;
  num = sorted_table nat_key;
  codecs = record {
    secret = codec Records.secret;
    version = codec Records.version;
    role = codec Records.role;
    token = codec Records.token;
    lockout = codec Records.lockout;
    audit = codec Records.audit;
    rewrap = codec Records.rewrap;
  };
}
