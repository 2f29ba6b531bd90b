-- ===== src/Store/Redb.antt =====
-- The parts of the crates redb and serde_json that the store relies on, as an interface: ordered
-- tables (`get`, `insert`, `remove`, `iter`, `range`) and the encoding of records. A failing disk is
-- not modelled: each call on a table succeeds.
pub mod Rows
pub mod Sample
pub mod Extensional
use hyperion_vault.Prelude.{
  ℕ, ◌≡◌, ◌↔◌, List, [], ◌∷◌, Bool, true, false, ◌&&◌, ◌||◌, not, Option, none, some, Bytes, ltb,
  ◌==◌, ==_iff, bytes_eq, bytes_lt, bytes_eq_iff, ltb_irrefl, ltb_trans, ltb_total, bytes_lt_irrefl,
  bytes_lt_trans, bytes_lt_total, if◌then◌else◌, select, All, map, arith, refl,
}
use hyperion_vault.Store.Model.{
  SecretRecord, VersionRecord, RoleRecord, TokenRecord, LockoutRecord, AuditEntry, KmsRewrapState,
}

-- the order of a table's keys
pub record Key (K : Type 0) : Type 0 where
  pub eq : K → K → Bool
  pub lt : K → K → Bool
  pub eq_iff : (a b : K) → (eq a b ≡ true) ↔ (a ≡ b)
  pub lt_irrefl : (a : K) → lt a a ≡ false
  pub lt_trans : (a b c : K) → lt a b ≡ true → lt b c ≡ true → lt a c ≡ true
  pub lt_total : (a b : K) → lt a b ≡ false → lt b a ≡ false → a ≡ b

-- an end of a range
pub data Bound (K : Type 0) : Type 0 where
  unbounded : Bound K
  included excluded : K → Bound K

module _ {K : Type 0} (key : Key K) where
  abbrev pub after : Bound K → K → Bool
  after unbounded k = true
  after (included lo) k = not (key.lt k lo)
  after (excluded lo) k = key.lt lo k

  abbrev pub before : Bound K → K → Bool
  before unbounded k = true
  before (included hi) k = not (key.lt hi k)
  before (excluded hi) k = key.lt k hi

  abbrev pub within : Bound K → Bound K → K × Bytes → Bool
  within lo hi row = after lo row.0 && before hi row.0

  unfoldable pub lookup : K → List (K × Bytes) → Option Bytes
  lookup k [] = none
  lookup k (row ∷ rows) = if key.eq row.0 k then some row.1 else lookup k rows

  -- keys rise strictly, so no key stands twice
  abbrev pub Ascending : List (K × Bytes) → Type 0
  Ascending [] = Unit
  Ascending (row ∷ rows) = All (λ other. key.lt row.0 other.0 ≡ true) rows × Ascending rows

-- A table of redb, as its documentation has it: a map that is iterated in the order of its keys.
pub record Kv (K : Type 0) (key : Key K) : Type 1 where
  pub Table : Type 0
  pub new : Table
  pub get : Table → K → Option Bytes
  pub insert : Table → K → Bytes → Table
  pub remove : Table → K → Table
  pub iter : Table → List (K × Bytes)
  pub range : Table → Bound K → Bound K → List (K × Bytes)
  pub get-new : (k : K) → get new k ≡ none
  pub get-insert :
      (t : Table) (k j : K) (v : Bytes)
      → get (insert t k v) j ≡ (if key.eq k j then some v else get t j)
  pub get-remove :
      (t : Table) (k j : K) → get (remove t k) j ≡ (if key.eq k j then none else get t j)
  pub lookup-iter : (t : Table) (k : K) → lookup key k (iter t) ≡ get t k
  pub iter-Ascending : (t : Table) → Ascending key (iter t)
  pub range-iter :
      (t : Table) (lo hi : Bound K) → range t lo hi ≡ select (within key lo hi) (iter t)

-- `encode` and `decode` of store/codec.rs: what was encoded decodes to itself.
pub record Codec (A : Type 0) : Type 0 where
  pub encode : A → Option Bytes
  pub decode : Bytes → Option A
  pub decode-encode : (a : A) (row : Bytes) → encode a ≡ some row → decode row ≡ some a

pub record Codecs : Type 0 where
  pub secret : Codec SecretRecord
  pub version : Codec VersionRecord
  pub role : Codec RoleRecord
  pub token : Codec TokenRecord
  pub lockout : Codec LockoutRecord
  pub audit : Codec AuditEntry
  pub rewrap : Codec KmsRewrapState

abbrev pub nat_key : Key ℕ
nat_key = record {
  eq = ◌==◌;
  lt = ltb;
  eq_iff = ==_iff;
  lt_irrefl = ltb_irrefl;
  lt_trans = ltb_trans;
  lt_total = ltb_total;
}

abbrev pub bytes_key : Key Bytes
bytes_key = record {
  eq = bytes_eq;
  lt = bytes_lt;
  eq_iff = bytes_eq_iff;
  lt_irrefl = bytes_lt_irrefl;
  lt_trans = bytes_lt_trans;
  lt_total = bytes_lt_total;
}

-- `&str` and `&[u8]` keys have one order; `u64` keys have that of numbers.
pub record Storage : Type 1 where
  pub str : Kv Bytes bytes_key
  pub num : Kv ℕ nat_key
  pub codecs : Codecs
