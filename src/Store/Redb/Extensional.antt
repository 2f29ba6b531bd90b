-- ===== src/Store/Redb/Extensional.antt =====
-- Tables that have the same rows: ascending lists, and the sorted lists of the examples.
use hyperion_vault.Prelude.{
  ◌≡◌, refl, sym, ap, ◌∙◌, List, [], ◌∷◌, true, none, some, Bytes, All, All-map, arith, Bool-cases,
  inl, inr,
}
use mathlib.Core.Bool.{Bool-set}
use mathlib.Core.HLevel.{Σ_prop_path}
use hyperion_vault.Store.Redb.{Key, lookup, Ascending}
use hyperion_vault.Store.Redb.Sample.{SortedRows}

module _ {K : Type 0} (key : Key K) where
  absent_before :
      (k : K) (rows : List (K × Bytes))
      → All (λ other. key.lt k other.0 ≡ true) rows
      → lookup key k rows ≡ none
  unfolding lookup
  absent_before k [] h = refl
  absent_before k (row ∷ rows) h =
      ground (arith, absent_before k rows h.1, key.eq_iff row.0 k, key.lt_irrefl k)

  lookup_first :
      (row : K × Bytes) (rows : List (K × Bytes)) → lookup key row.0 (row ∷ rows) ≡ some row.1
  unfolding lookup
  lookup_first row rows = ground (arith, key.eq_iff row.0 row.0)

  before_all :
      (k : K) (row : K × Bytes) (rows : List (K × Bytes))
      → key.lt k row.0 ≡ true
      → Ascending key (row ∷ rows)
      → lookup key k (row ∷ rows) ≡ none
  before_all k row rows before h =
      absent_before k (row ∷ rows)
        (before, All-map _ _ rows (λ other below. key.lt_trans k row.0 other.0 before below) h.0)

  abbrev SameRows : List (K × Bytes) → List (K × Bytes) → Type 0
  SameRows xs ys = (k : K) → lookup key k xs ≡ lookup key k ys

  same_first :
      (x y : K × Bytes) (xs ys : List (K × Bytes))
      → Ascending key (x ∷ xs)
      → Ascending key (y ∷ ys)
      → SameRows (x ∷ xs) (y ∷ ys)
      → x ≡ y
  same_first x y xs ys hx hy h =
      let first = lookup_first x xs in
      let other = lookup_first y ys in
      elim (Bool-cases (key.lt x.0 y.0)) [
        | inl before ↦ absurd (cc (before_all x.0 y ys before hy, h x.0, first))
        | inr e ↦ elim (Bool-cases (key.lt y.0 x.0)) [
          | inl after ↦ absurd (cc (before_all y.0 x xs after hx, h y.0, other))
          | inr f ↦
              let keys : x.0 ≡ y.0 = key.lt_total x.0 y.0 e f in
              let values : x.1 ≡ y.1 = cc (h x.0, first, other, keys) in
              let both : (x.0, x.1) ≡ (y.0, y.1) = rw (keys, values) refl in both
        ]
      ]

  same_rest :
      (x : K × Bytes) (xs ys : List (K × Bytes))
      → Ascending key (x ∷ xs)
      → Ascending key (x ∷ ys)
      → SameRows (x ∷ xs) (x ∷ ys)
      → SameRows xs ys
  unfolding lookup
  same_rest x xs ys hx hy h k = elim (Bool-cases (key.eq x.0 k)) [
    | inl here ↦
        let same = (key.eq_iff x.0 k).0 here in
        absent_before k xs (rw same at hx.0) ∙ sym (absent_before k ys (rw same at hy.0))
    | inr other ↦ ground (arith, h k)
  ]

  -- Two ascending lists in which every key finds the same row are equal.
  pub Ascending-ext :
      (xs ys : List (K × Bytes)) → Ascending key xs → Ascending key ys → SameRows xs ys → xs ≡ ys
  Ascending-ext [] [] hx hy h = refl
  Ascending-ext [] (y ∷ ys) hx hy h = absurd (unfold lookup in cc (h y.0, lookup_first y ys))
  Ascending-ext (x ∷ xs) [] hx hy h = absurd (unfold lookup in cc (h x.0, lookup_first x xs))
  Ascending-ext (x ∷ xs) (y ∷ ys) hx hy h =
      let first : y ≡ x = sym (same_first x y xs ys hx hy h) in
      let hy' : Ascending key (x ∷ ys) = rw first at hy in
      let h' : SameRows (x ∷ xs) (x ∷ ys) = rw first at h in
      rw first
        (ap (λ rows. x ∷ rows) (Ascending-ext xs ys hx.1 hy'.1 (same_rest x xs ys hx hy' h')))

  before-IsProp :
      (k : K) (rows : List (K × Bytes)) → IsProp (All (λ other. key.lt k other.0 ≡ true) rows)
  before-IsProp k [] = hlevel
  before-IsProp k (row ∷ rows) = hlevel (before-IsProp k rows, Bool-set)

  Ascending-IsProp : (rows : List (K × Bytes)) → IsProp (Ascending key rows)
  Ascending-IsProp [] = hlevel
  Ascending-IsProp (row ∷ rows) = hlevel (before-IsProp row.0 rows, Ascending-IsProp rows)

  -- A sorted list of the examples is determined by its rows.
  pub sorted_table-ext :
      (t u : SortedRows key) → ((k : K) → lookup key k t.rows ≡ lookup key k u.rows) → t ≡ u
  sorted_table-ext t u h =
      let same = Ascending-ext t.rows u.rows t.ascending u.ascending h in
      let table : (rows : List (K × Bytes)) × Ascending key rows → SortedRows key =
        (λ p. record { rows = p.0; ascending = p.1 }) in
      ap table
        (Σ_prop_path Ascending-IsProp {u = (t.rows, t.ascending)} {v = (u.rows, u.ascending)} same)
