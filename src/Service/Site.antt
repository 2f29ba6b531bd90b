-- ===== src/Service/Site.antt =====
-- state.rs and the externals of service.rs: the KMS, the cipher, random values, JSON and the PostgreSQL
-- servers are parameters on a state of the world; a node has its tables, its cache and that world.
use hyperion_vault.Prelude.{ℕ, ◌≡◌, ap, inl, inr, arith, Bool, Option, none, some, Bytes, ℤ, List}
use hyperion_vault.Store.Model.{Command, StoreResult}
use hyperion_vault.Store.Redb.{Storage}
use hyperion_vault.Store.Db.{Db}
use hyperion_vault.Store.Engine
use hyperion_vault.Api.Error.{
  Outside, Settings, ApiError, broken, ApiResult, done, refused, Handler, api, ApiResult-cases,
}
use hyperion_vault.Api.DekCache.{DekCache}

-- `DataKey`
pub record DataKey : Type 0 where
  pub plaintext : Bytes
  pub wrapped : Bytes
  pub key_id : Bytes

pub record UserPass : Type 0 where
  pub username : Bytes
  pub password : Bytes

-- what the service calls: a key is asked for with the name and the version of a secret
pub record Externals : Type 1 where
  pub World : Type 0
  pub generate_data_key : Bytes → ℤ → World → Option DataKey × World
  -- wrapped key, key id, name, version
  pub decrypt_data_key : Bytes → Bytes → Bytes → ℤ → World → Option Bytes × World
  pub reencrypt_data_key : Bytes → Bytes → Bytes → ℤ → World → Option (Bytes × Bytes) × World
  pub latest_rotation_at : World → Option (Option ℤ) × World
  pub generate_nonce : World → Bytes × World
  pub generate_token : World → Bytes × World
  -- key, nonce, associated data, text
  pub encrypt : Bytes → Bytes → Bytes → Bytes → Option Bytes
  pub decrypt : Bytes → Bytes → Bytes → Bytes → Option Bytes
  pub encode_userpass : UserPass → Bytes
  pub decode_userpass : Bytes → Option UserPass
  pub is_utf8 : Bytes → Bool
  pub rfc3339 : ℤ → Bytes
  -- host, port, database, user, password, role, new password; whether the server is a primary
  pub try_rotate : Bytes → ℕ → Bytes → Bytes → Bytes → Bytes → Bytes → World → Option Bool × World

-- `AppState`, as far as the service reads it; the allowed PostgreSQL servers are hosts with ports
pub record Site : Type 1 where
  pub r : Storage
  pub externals : Externals
  pub outside : Outside
  pub settings : Settings
  pub target_hosts : List (Bytes × ℕ)

pub record Vault (s : Site) : Type 0 where
  pub db : Db s.r
  pub dek_cache : DekCache
  pub world : s.externals.World

abbrev pub Op : Site → Type 0 → Type 0
Op s A = Vault s → ApiResult A × Vault s

infixl 5 ◌>>=◌ ◌>>◌
abbrev pub proceed :
    {s : Site} {A B : Type 0} → ApiResult A × Vault s → (A → Op s B) → ApiResult B × Vault s
proceed (done a, vault) f = f a vault
proceed (refused e, vault) f = (refused e, vault)

abbrev pub ◌>>=◌ : {s : Site} {A B : Type 0} → Op s A → (A → Op s B) → Op s B
◌>>=◌ m f vault = proceed (m vault) f

abbrev pub ◌>>◌ : {s : Site} {B : Type 0} → Op s (Unit {0}) → Op s B → Op s B
◌>>◌ m k vault = proceed (m vault) (λ _. k)

abbrev pub or_broken : {A : Type 0} → Option A → ApiResult A
or_broken none = refused broken
or_broken (some a) = done a

module _ (s : Site) where
  abbrev pub give : {A : Type 0} → A → Op s A
  give a vault = (done a, vault)

  abbrev pub refuse : {A : Type 0} → ApiError → Op s A
  refuse e vault = (refused e, vault)

  -- a check that does not look at the state, with `?`
  abbrev pub checked : {A : Type 0} → ApiResult A → Op s A
  checked res vault = (res, vault)

  abbrev pub read : {A : Type 0} → (Db s.r → StoreResult A) → Op s A
  read f vault = (api (f vault.db), vault)

  abbrev pub on_db : {A : Type 0} → Handler s.r A → Op s A
  on_db h vault = let (res, db) = h vault.db in (res, record vault { db = db })

  -- `state.store.apply(command).await?`
  abbrev pub apply : Command → Op s (Unit {0})
  apply command vault =
      let (res, db) = Engine.apply s.r s.settings.node_id command vault.db in
      (api res, record vault { db = db })

  -- the same, where an error is only logged
  abbrev pub try_apply : Command → Op s (Unit {0})
  try_apply command vault =
      (done tt, record vault { db = (Engine.apply s.r s.settings.node_id command vault.db).1 })

  -- a call outside; a failure there is an internal error
  abbrev pub call : {A : Type 0} → (s.externals.World → Option A × s.externals.World) → Op s A
  call f vault = let (res, world) = f vault.world in (or_broken res, record vault { world = world })

  abbrev pub draw : {A : Type 0} → (s.externals.World → A × s.externals.World) → Op s A
  draw f vault = let (a, world) = f vault.world in (done a, record vault { world = world })

-- a chain that succeeds has a first step that does
pub bind_done :
    {s : Site} {A B C : Type 0} (m : Op s A) (f : A → Op s B) (vault : Vault s) (b : B)
    (after : Vault s)
    → (m >>= f) vault ≡ (done b, after)
    → ((a : A) (next : Vault s) → m vault ≡ (done a, next) → f a next ≡ (done b, after) → C)
    → C
bind_done m f vault b after h k = elim (ApiResult-cases (m vault).0) [
  | inl (a, e) ↦ k a (m vault).1 (ap (λ x. (x, (m vault).1)) e) (rw e at h)
  | inr (e, failed) ↦ absurd (ground arith)
]
