-- ===== src/Api/DekCache.antt =====
-- cache.rs: data keys by their wrapped form, for a while and up to a number. Times are nanoseconds of a
-- clock that does not go back; the map is the list of its entries, in an order of iteration.
use hyperion_vault.Prelude.{
  ℕ, ◌-◌, ◌*◌, ◌^◌, ◌≤◌, ◌<◌, ◌≡◌, inl, inr, List, [], ◌∷◌, Bool, not, ◌&&◌, Option, none, some,
  arith, Bytes, ltb, leb, ◌==◌, bytes_eq, bytes_eq_iff, if◌then◌else◌, length, select, Bool-cases,
  Option-cases,
}

abbrev pub max_entries : ℕ
max_entries = 16384

-- an entry: the wrapped key, when it was stored, the key
abbrev pub Entry : Type 0
Entry = Bytes × (ℕ × Bytes)

pub record DekCache : Type 0 where
  pub ttl : ℕ
  pub map : List Entry

unfoldable pub new : ℕ → DekCache
new ttl_secs = record { ttl = ttl_secs * 10 ^ 9; map = [] }

unfoldable pub enabled : DekCache → Bool
enabled cache = not (cache.ttl == 0)

unfoldable pub find : Bytes → List Entry → Option (ℕ × Bytes)
find wrapped [] = none
find wrapped (entry ∷ map) =
    let rest = find wrapped map in if bytes_eq entry.0 wrapped then some entry.1 else rest

unfoldable pub without : Bytes → List Entry → List Entry
without wrapped map = select (λ entry. not (bytes_eq entry.0 wrapped)) map

-- `min_by_key` on the time of storing: the first of the oldest entries
unfoldable pub oldest : List Entry → Option Entry
oldest [] = none
oldest (entry ∷ map) = elim (oldest map) [
  | none ↦ some entry
  | some other ↦ some (if leb entry.1.0 other.1.0 then entry else other)
]

abbrev pub fresh : ℕ → ℕ → Entry → Bool
fresh now ttl entry = ltb (now - entry.1.0) ttl

unfoldable pub evict : List Entry → List Entry
unfolding oldest without
evict map = elim (oldest map) [ none ↦ map | some entry ↦ without entry.0 map ]

-- A key that is too old is taken out of the map.
unfoldable pub get : DekCache → Bytes → ℕ → Option Bytes × DekCache
unfolding find without
get cache wrapped now = if cache.ttl == 0 then (none, cache) else elim (find wrapped cache.map) [
  | none ↦ (none, cache)
  | some (stored, dek) ↦
      if ltb (now - stored) cache.ttl
      then (some dek, cache)
      else (none, record cache { map = without wrapped cache.map })
]

-- the entries that a full map keeps: first the fresh ones, and one less if it is still full
abbrev pub swept : ℕ → ℕ → List Entry → List Entry
swept now ttl map = if leb max_entries (length map) then select (fresh now ttl) map else map

abbrev pub roomy : List Entry → List Entry
roomy map = if leb max_entries (length map) then evict map else map

unfoldable pub put : DekCache → Bytes → Bytes → ℕ → DekCache
unfolding evict without
put cache wrapped dek now = if cache.ttl == 0 then cache else record cache {
  map = (wrapped, (now, dek)) ∷ without wrapped (roomy (swept now cache.ttl cache.map));
}

select_le : (test : Entry → Bool) (map : List Entry) → length (select test map) ≤ length map
select_le test [] = omega arith
select_le test (entry ∷ map) = ground (arith, select_le test map)

-- taking out a key that is there makes a map shorter
without_lt :
    (wrapped : Bytes) (found : ℕ × Bytes) (map : List Entry)
    → find wrapped map ≡ some found
    → length (without wrapped map) < length map
unfolding find without
without_lt wrapped found [] h = cc
without_lt wrapped found (entry ∷ map) h =
    ground (arith, select_le (λ e. not (bytes_eq e.0 wrapped)) map, without_lt wrapped found map)

find-oldest :
    (map : List Entry) (entry : Entry)
    → oldest map ≡ some entry
    → (found : ℕ × Bytes) × (find entry.0 map ≡ some found)
unfolding find oldest
find-oldest [] entry h = cc
find-oldest (first ∷ map) entry h = elim (Option-cases (oldest map)) [
  | inl e ↦ (first.1, ground (arith, bytes_eq_iff first.0 first.0))
  | inr (other, e) ↦
      let (found, there) = find-oldest map other e in
      elim (Bool-cases (leb first.1.0 other.1.0)) [
        | inl older ↦ (first.1, ground (arith, bytes_eq_iff first.0 first.0))
        | inr younger ↦ elim (Bool-cases (bytes_eq first.0 other.0)) [
          | inl same ↦ (first.1, ground arith)
          | inr apart ↦ (found, ground arith)
        ]
      ]
]

oldest-nonempty :
    (entry : Entry) (map : List Entry) → (found : Entry) × (oldest (entry ∷ map) ≡ some found)
unfolding oldest
oldest-nonempty entry map = elim (Option-cases (oldest map)) [
  | inl e ↦ (entry, ground arith)
  | inr (other, e) ↦ (if leb entry.1.0 other.1.0 then entry else other, ground arith)
]

evict_lt : (map : List Entry) → 1 ≤ length map → length (evict map) < length map
unfolding evict
evict_lt [] h = absurd (omega arith)
evict_lt (entry ∷ map) h =
    let (found, e) = oldest-nonempty entry map in
    let (there, f) = find-oldest (entry ∷ map) found e in
    ground (arith, without_lt found.0 there (entry ∷ map) f)

-- A map with no more entries than the largest number has no more after a key is put in it.
pub put_bounded :
    (cache : DekCache) (wrapped dek : Bytes) (now : ℕ)
    → length cache.map ≤ max_entries
    → length (put cache wrapped dek now).map ≤ max_entries
unfolding put
put_bounded cache wrapped dek now h =
    let kept = swept now cache.ttl cache.map in
    ground (
      arith,
      select_le (fresh now cache.ttl) cache.map,
      select_le (λ e. not (bytes_eq e.0 wrapped)) (roomy kept),
      evict_lt kept,
    )

-- A key that was put in is given back exactly while the cache is on and the key is younger than the
-- time to live.
pub get-put :
    (cache : DekCache) (wrapped dek : Bytes) (now later : ℕ)
    → (get (put cache wrapped dek now) wrapped later).0
      ≡ (if enabled cache && ltb (later - now) cache.ttl then some dek else none)
unfolding get put enabled
get-put cache wrapped dek now later = ground (arith, bytes_eq_iff wrapped wrapped)
