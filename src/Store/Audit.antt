-- ===== src/Store/Audit.antt =====
-- store/apply.rs, `AppendAudit`: the keys of the audit log.
use hyperion_vault.Prelude.{
  ℕ, ◌+◌, ◌<◌, ◌≤◌, ◌≡◌, ◌≢◌, refl, sym, ap, ◌∙◌, inl, inr, List, [], ◌∷◌, Bool, true, Option, none,
  some, Bytes, arith, select, if◌then◌else◌, Option-cases, ltb, ◌==◌, All, select-passes, not, ◌&&◌,
}
use hyperion_vault.Store.Model.{AuditEntry, ok}
use hyperion_vault.Store.Redb.{Storage, nat_key, Ascending, lookup, within, unbounded, included}
use hyperion_vault.Store.Redb.Rows.{
  lookup-select, lookup_of_lookup-select, lookup-All, select-Ascending,
}
use hyperion_vault.Store.Db.{Db, max_audit_key, StoreResult-cases}
use hyperion_vault.Store.Apply.Upkeep
use hyperion_vault.Store.Apply.Upkeep.{last_key, last_audit_key, next_audit_key}

abbrev AuditRow : Type 0
AuditRow = ℕ × Bytes

-- in rows of rising keys the last key is the largest
last_key-max :
    (rows : List AuditRow) (m : ℕ)
    → Ascending nat_key rows
    → last_key rows ≡ some m
    → All (λ row. row.0 ≤ m) rows
last_key-max [] m h e = tt
last_key-max (row ∷ []) m h e = (ground arith, tt)
last_key-max (row ∷ next ∷ rows) m h e =
    let later = last_key-max (next ∷ rows) m h.1 e in (ground (arith, later.0, h.0.0), later)

last_key-ne-none : (row : AuditRow) (rows : List AuditRow) → last_key (row ∷ rows) ≢ none
last_key-ne-none row [] = λ e. cc
last_key-ne-none row (next ∷ rows) = last_key-ne-none next rows

last_key-none : (rows : List AuditRow) → last_key rows ≡ none → rows ≡ []
last_key-none [] e = refl
last_key-none (row ∷ rows) e = absurd (last_key-ne-none row rows e)

lookup_empty : (k : ℕ) → lookup nat_key k [] ≡ none
unfolding lookup
lookup_empty k = refl

last_key_found :
    (rows : List AuditRow) (m : ℕ)
    → Ascending nat_key rows
    → last_key rows ≡ some m
    → (v : Bytes) × (lookup nat_key m rows ≡ some v)
unfolding lookup
last_key_found [] m h e = absurd (cc)
last_key_found (row ∷ []) m h e = (row.1, ground arith)
last_key_found (row ∷ next ∷ rows) m h e =
    let (v, found) = last_key_found (next ∷ rows) m h.1 e in
    let bound = lookup-All nat_key (λ j. ltb row.0 j ≡ true) m v (next ∷ rows) h.0 found in
    (v, ground arith)

module _ (r : Storage) (db : Db r) where
  abbrev test : AuditRow → Bool
  test = within nat_key unbounded (included max_audit_key)

  abbrev plausible : List AuditRow
  plausible = select test (r.num.iter db.audit)

  last_plausible : (last : Option ℕ) → last_audit_key r db ≡ last → last_key plausible ≡ last
  last_plausible last e = rw (← r.num.range-iter db.audit unbounded (included max_audit_key)) e

  plausible-Ascending : Ascending nat_key plausible
  plausible-Ascending = select-Ascending nat_key test _ (r.num.iter-Ascending db.audit)

  -- a row at a plausible key is among the plausible rows
  plausible_row :
      (k : ℕ) (v : Bytes)
      → r.num.get db.audit k ≡ some v
      → k ≤ max_audit_key
      → lookup nat_key k plausible ≡ some v
  plausible_row k v h small =
      lookup-select nat_key test k v (r.num.iter db.audit) (r.num.lookup-iter db.audit k ∙ h)
        (ground arith)

  -- the last plausible key has a row, and is not above the largest plausible key
  last_row :
      (m : ℕ)
      → last_audit_key r db ≡ some m
      → (v : Bytes) × (r.num.get db.audit m ≡ some v) × (m ≤ max_audit_key)
  last_row m e =
      let (v, found) = last_key_found plausible m plausible-Ascending (last_plausible (some m) e) in
      let small =
        lookup-All nat_key (λ j. (true && not (ltb max_audit_key j)) ≡ true) m v plausible
          (select-passes test (r.num.iter db.audit)) found in
      (
        v,
        sym (r.num.lookup-iter db.audit m)
            ∙ lookup_of_lookup-select nat_key test m v _ (r.num.iter-Ascending db.audit) found,
        ground arith,
      )

  above_last_free :
      (k : ℕ)
      → k ≤ max_audit_key
      → ((m : ℕ) → last_audit_key r db ≡ some m → m < k)
      → r.num.get db.audit k ≡ none
  above_last_free k small above = elim (Option-cases (r.num.get db.audit k)) [
    | inl free ↦ free
    | inr (v, taken) ↦
        let found = plausible_row k v taken small in
        elim (Option-cases (last_audit_key r db)) [
          | inl e ↦ cc (
            ap (lookup nat_key k) (last_key-none plausible (last_plausible none e)),
            lookup_empty k,
          )
          | inr (m, e) ↦
              let bound =
                lookup-All nat_key (λ j. j ≤ m) k v plausible
                  (last_key-max plausible m plausible-Ascending (last_plausible (some m) e))
                  found in
              absurd (omega (arith, above m e))
        ]
  ]

  -- The key that the next entry takes is free, unless the largest plausible key is taken.
  next_audit_key_free :
      (next : ℕ)
      → next_audit_key (last_audit_key r db) ≡ ok next
      → r.num.get db.audit max_audit_key ≡ none
      → r.num.get db.audit next ≡ none
  next_audit_key_free next h free = elim (Option-cases (last_audit_key r db)) [
    | inl e ↦ above_last_free next (ground arith) (λ m e'. cc)
    | inr (m, e) ↦
        let (v, taken, small) = last_row m e in
        let below : m ≢ max_audit_key = λ same. cc (ap (r.num.get db.audit) same) in
        let is_next : next ≡ m + 1 = ground arith in
        above_last_free next (omega arith) (λ m' e'. let same : m' ≡ m = cc in omega arith)
  ]

  -- An entry that is appended while the largest plausible key is free takes a key that had no row:
  -- every row that was there stays as it was, and the new row is the entry with this node's id.
  pub append_audit_fresh :
      (node_id : ℕ) (entry : AuditEntry)
      → (Upkeep.append_audit r node_id entry db).0 ≡ ok tt
      → r.num.get db.audit max_audit_key ≡ none
      → let after = (Upkeep.append_audit r node_id entry db).1 in
        (key : ℕ) × (row : Bytes) × (r.num.get db.audit key ≡ none)
        × (r.codecs.audit.encode (record entry { node_id = node_id }) ≡ some row)
        × ((k : ℕ)
            → r.num.get after.audit k ≡ (if key == k then some row else r.num.get db.audit k))
  unfolding Upkeep.append_audit
  append_audit_fresh node_id entry h free =
      elim (StoreResult-cases (next_audit_key (last_audit_key r db))) [
        | inr (e, bad) ↦ absurd (ground arith)
        | inl (key, e) ↦
            elim (Option-cases (r.codecs.audit.encode (record entry { node_id = node_id }))) [
              | inl bad ↦ absurd (ground arith)
              | inr (row, w) ↦ (
                key,
                row,
                next_audit_key_free key e free,
                w,
                λ k. ground (arith, r.num.get-insert db.audit key k row),
              )
            ]
      ]

  last_at_max :
      (v : Bytes)
      → r.num.get db.audit max_audit_key ≡ some v
      → last_audit_key r db ≡ some max_audit_key
  last_at_max v taken =
      let found = plausible_row max_audit_key v taken (omega arith) in
      elim (Option-cases (last_audit_key r db)) [
        | inl e ↦ cc (
          ap (lookup nat_key max_audit_key) (last_key-none plausible (last_plausible none e)),
          lookup_empty max_audit_key,
        )
        | inr (m, e) ↦
            let bound =
              lookup-All nat_key (λ j. j ≤ m) max_audit_key v plausible
                (last_key-max plausible m plausible-Ascending (last_plausible (some m) e)) found in
            let (w, there, small) = last_row m e in
            let same : m ≡ max_audit_key = omega arith in e ∙ ap some same
      ]

module _ (r : Storage) where
  append_at_max :
      (node_id : ℕ) (entry : AuditEntry) (db : Db r) (v : Bytes)
      → r.num.get db.audit max_audit_key ≡ some v
      → (Upkeep.append_audit r node_id entry db).0 ≡ ok tt
      → (row : Bytes) × (r.codecs.audit.encode (record entry { node_id = node_id }) ≡ some row)
        × ((Upkeep.append_audit r node_id entry db).1.audit
            ≡ r.num.insert db.audit (max_audit_key + 1) row)
  unfolding Upkeep.append_audit
  append_at_max node_id entry db v taken h =
      elim (Option-cases (r.codecs.audit.encode (record entry { node_id = node_id }))) [
        | inl bad ↦ absurd (ground (arith, last_at_max r db v taken))
        | inr (row, w) ↦ (row, w, ground (arith, last_at_max r db v taken))
      ]

  -- With a row at the largest plausible key, which a restored backup may hold, each append writes to
  -- the key above it: after two successful appends that key has the second entry, and every other
  -- key is as before both, so the first entry is lost.
  pub append_audit_overwrites :
      (node_id : ℕ) (first second : AuditEntry) (db : Db r) (v : Bytes) (k : ℕ)
      → r.num.get db.audit max_audit_key ≡ some v
      → let middle = (Upkeep.append_audit r node_id first db).1 in
        let after = (Upkeep.append_audit r node_id second middle).1 in
        (Upkeep.append_audit r node_id first db).0 ≡ ok tt
        → (Upkeep.append_audit r node_id second middle).0 ≡ ok tt
        → r.num.get after.audit k ≡ (
            if (max_audit_key + 1) == k
            then r.codecs.audit.encode (record second { node_id = node_id })
            else r.num.get db.audit k)
  append_audit_overwrites node_id first second db v k taken h1 h2 =
      let (row, w, wrote) = append_at_max node_id first db v taken h1 in
      let kept : r.num.get (Upkeep.append_audit r node_id first db).1.audit max_audit_key ≡ some v =
        rw wrote
          (ground (arith, r.num.get-insert db.audit (max_audit_key + 1) max_audit_key row)) in
      let (row', w', wrote') =
        append_at_max node_id second (Upkeep.append_audit r node_id first db).1 v kept h2 in
      rw (wrote', wrote)
        (ground (
          arith,
          r.num.get-insert (r.num.insert db.audit (max_audit_key + 1) row) (max_audit_key + 1) k
              row',
          r.num.get-insert db.audit (max_audit_key + 1) k row,
        ))
