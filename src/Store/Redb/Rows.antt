-- ===== src/Store/Redb/Rows.antt =====
-- Removing the rows that a scan selects: the loops `for key in keys { table.remove(key) }`.
use hyperion_vault.Prelude.{
  ◌≡◌, refl, List, [], ◌∷◌, Bool, true, false, Option, none, some, Bytes, if◌then◌else◌, select,
  select-All, All, any, map, arith, Bool-cases, inl, inr,
}
use hyperion_vault.Store.Redb.{Key, Kv, lookup, Ascending}

module _ {K : Type 0} (key : Key K) where
  -- `key` is among `keys`
  abbrev pub listed : K → List K → Bool
  listed k keys = any (λ j. key.eq j k) keys

  abbrev pub keys_of : List (K × Bytes) → List K
  keys_of rows = map (λ row. row.0) rows

  -- what is left at a key once the rows that pass a test are gone
  abbrev pub unless : (K × Bytes → Bool) → K → Option Bytes → Option Bytes
  unless test k none = none
  unless test k (some v) = if test (k, v) then none else some v

  abbrev passes : (K × Bytes → Bool) → K → Option Bytes → Bool
  passes test k none = false
  passes test k (some v) = test (k, v)

  not_listed :
      (test : K × Bytes → Bool) (k : K) (rows : List (K × Bytes))
      → All (λ other. key.lt k other.0 ≡ true) rows
      → listed k (keys_of (select test rows)) ≡ false
  not_listed test k [] h = refl
  not_listed test k (row ∷ rows) h =
      ground (arith, not_listed test k rows, key.eq_iff row.0 k, key.lt_irrefl k)

  selected_iff_passes :
      (test : K × Bytes → Bool) (k : K) (rows : List (K × Bytes))
      → Ascending key rows
      → listed k (keys_of (select test rows)) ≡ passes test k (lookup key k rows)
  unfolding lookup
  selected_iff_passes test k [] h = refl
  selected_iff_passes test k (row ∷ rows) h = elim (Bool-cases (key.eq row.0 k)) [
    | inl same ↦
        let here : row.0 ≡ k = (key.eq_iff row.0 k).0 same in
        let absent : listed k (keys_of (select test rows)) ≡ false =
          not_listed test k rows (rw here at h.0) in
        ground arith
    | inr other ↦ ground (arith, selected_iff_passes test k rows h.1)
  ]

module _ {K : Type 0} (key : Key K) (kv : Kv K key) where
  open kv use {Table, get, insert, remove, iter, range, get-insert, get-remove}

  -- `for key in keys { table.remove(key)?; }`
  unfoldable pub remove_all : Table → List K → Table
  remove_all t [] = t
  remove_all t (k ∷ keys) = remove_all (remove t k) keys

  -- `for (key, value) in rows { table.insert(key, value)?; }`
  unfoldable pub insert_all : Table → List (K × Bytes) → Table
  insert_all t [] = t
  insert_all t (row ∷ rows) = insert_all (insert t row.0 row.1) rows

  pub get-remove_all :
      (t : Table) (keys : List K) (k : K)
      → get (remove_all t keys) k ≡ (if listed key k keys then none else get t k)
  unfolding remove_all
  get-remove_all t [] k = refl
  get-remove_all t (j ∷ keys) k =
      ground (arith, get-remove_all (remove t j) keys k, get-remove t j k)

  -- A scan that removes the rows which pass a test leaves every other row as it was.
  pub get-remove_selected :
      (t : Table) (test : K × Bytes → Bool) (k : K)
      → get (remove_all t (keys_of key (select test (iter t)))) k ≡ unless key test k (get t k)
  get-remove_selected t test k = ground (
    arith,
    get-remove_all t (keys_of key (select test (iter t))) k,
    selected_iff_passes key test k (iter t) (kv.iter-Ascending t),
    kv.lookup-iter t k,
  )

module _ {K : Type 0} (key : Key K) where
  -- A row that a selection keeps is found in it.
  pub lookup-select :
      (test : K × Bytes → Bool) (k : K) (v : Bytes) (rows : List (K × Bytes))
      → lookup key k rows ≡ some v
      → test (k, v) ≡ true
      → lookup key k (select test rows) ≡ some v
  unfolding lookup
  lookup-select test k v [] h p = cc
  lookup-select test k v (row ∷ rows) h p =
      ground (arith, key.eq_iff row.0 k, lookup-select test k v rows)

  -- What holds of all rows holds of the one that is found.
  pub lookup-All :
      (P : K → Type 0) (k : K) (v : Bytes) (rows : List (K × Bytes))
      → All (λ row. P row.0) rows
      → lookup key k rows ≡ some v
      → P k
  unfolding lookup
  lookup-All P k v [] h e = absurd (cc)
  lookup-All P k v (row ∷ rows) h e = elim (Bool-cases (key.eq row.0 k)) [
    | inl same ↦ rw ((key.eq_iff row.0 k).0 same) at h.0
    | inr other ↦ lookup-All P k v rows h.1 (ground arith)
  ]

  pub select-Ascending :
      (test : K × Bytes → Bool) (rows : List (K × Bytes))
      → Ascending key rows
      → Ascending key (select test rows)
  select-Ascending test [] h = tt
  select-Ascending test (row ∷ rows) h = elim (Bool-cases (test row)) [
    | inl kept ↦ rw kept (select-All test _ rows h.0, select-Ascending test rows h.1)
    | inr gone ↦ rw gone (select-Ascending test rows h.1)
  ]

  -- A row that is found in a selection is found among the rows.
  pub lookup_of_lookup-select :
      (test : K × Bytes → Bool) (k : K) (v : Bytes) (rows : List (K × Bytes))
      → Ascending key rows
      → lookup key k (select test rows) ≡ some v
      → lookup key k rows ≡ some v
  unfolding lookup
  lookup_of_lookup-select test k v [] h e = cc
  lookup_of_lookup-select test k v (row ∷ rows) h e = elim (Bool-cases (test row)) [
    | inl kept ↦ ground (arith, lookup_of_lookup-select test k v rows h.1)
    | inr gone ↦
        let found : lookup key k rows ≡ some v =
          ground (arith, lookup_of_lookup-select test k v rows h.1) in
        let above = lookup-All (λ j. key.lt row.0 j ≡ true) k v rows h.0 found in
        ground (arith, key.eq_iff row.0 k, key.lt_irrefl k)
  ]
