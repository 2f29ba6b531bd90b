-- ===== src/Api/Error.antt =====
-- error.rs and state.rs: the errors of a request, the settings of a node, and a handler as a function
-- on the tables of a node that stands alone. The clock is read once: `now` stands for it.
use hyperion_vault.Prelude.{ℕ, Bool, Option, Bytes, ℤ, ◌≡◌, ◌≢◌, refl, ◌⊎◌, inl, inr, some, All}
use hyperion_vault.Store.Model.{
  Command, Message, StoreError, not_found, conflict, version_conflict, internal, StoreResult, ok,
  err,
}
use hyperion_vault.Store.Redb.{Storage}
use hyperion_vault.Store.Db.{Db}
use hyperion_vault.Store.Engine

pub data IpAddr : Type 0 where
  v4 : ℕ → IpAddr
  v6 : ℕ → IpAddr

-- what comes from the standard library and from SHA-256: the text of an address and its parser, and
-- the fingerprint of a token
pub record Outside : Type 0 where
  pub ip_text : IpAddr → Bytes
  pub parse_ip : Bytes → Option IpAddr
  pub fingerprint : Bytes → Bytes
  -- a text of an address is parsed to that address
  pub parse_ip-ip_text : (ip : IpAddr) → parse_ip (ip_text ip) ≡ some ip
  -- it is made of hexadecimal digits, dots and colons
  pub ip_text-no_v : (ip : IpAddr) → All (λ c. c ≢ b'v') (ip_text ip)

pub record Settings : Type 0 where
  pub node_id : ℕ
  pub auth_max_failures : ℕ
  pub auth_lockout_secs : ℤ
  pub auth_window_secs : ℤ
  pub token_touch_secs : ℤ
  pub trust_proxy : Bool

-- the text of a refusal, with the values that it prints
pub data Complaint : Type 0 where
  bad_role_name : Complaint
  bad_action : Bytes → Complaint
  empty_path : Complaint
  builtin_role : Complaint
  token_name_required : Complaint
  no_such_role : Bytes → Complaint
  unsupported_backup : ℕ → Complaint
  name_length name_characters name_segments : Complaint
  interval_not_positive interval_too_long grace_negative grace_too_long : Complaint
  value_empty value_too_large : Complaint
  field_empty field_too_large : Bytes → Complaint
  interval_required value_and_userpass username_required password_required value_required :
      Complaint
  secret_is_opaque secret_is_userpass not_automatic too_many_versions : Complaint
  batch_too_large : ℕ → Complaint
  target_has_no_hosts no_target_hosts : Complaint
  target_not_listed : Bytes → Complaint
  of_store : Message → Complaint
  write_conflict : Complaint

pub data ApiError : Type 0 where
  unauthorized forbidden too_many_requests missing broken : ApiError
  bad_request : Complaint → ApiError
  clash : Complaint → ApiError

pub data ApiResult {ℓ} (A : Type ℓ) : Type ℓ where
  done : A → ApiResult A
  refused : ApiError → ApiResult A

-- `From<StoreError> for ApiError`
unfoldable pub of_store_error : StoreError → ApiError
of_store_error not_found = missing
of_store_error (conflict message) = clash (of_store message)
of_store_error version_conflict = clash write_conflict
of_store_error internal = broken

-- the status code of a response
unfoldable pub status : ApiError → ℕ
status unauthorized = 401
status forbidden = 403
status too_many_requests = 429
status missing = 404
status (bad_request complaint) = 400
status (clash complaint) = 409
status broken = 500

abbrev pub api {ℓ} : {A : Type ℓ} → StoreResult A → ApiResult A
api (ok a) = done a
api (err e) = refused (of_store_error e)

abbrev pub Handler : Storage → Type 0 → Type 0
Handler r A = Db r → ApiResult A × Db r

infixl 5 ◌>>=◌ ◌>>◌
abbrev pub proceed :
    {r : Storage} {A B : Type 0} → ApiResult A × Db r → (A → Handler r B) → ApiResult B × Db r
proceed (done a, db) f = f a db
proceed (refused e, db) f = (refused e, db)

abbrev pub ◌>>=◌ : {r : Storage} {A B : Type 0} → Handler r A → (A → Handler r B) → Handler r B
◌>>=◌ m f db = proceed (m db) f

abbrev pub ◌>>◌ : {r : Storage} {B : Type 0} → Handler r (Unit {0}) → Handler r B → Handler r B
◌>>◌ m k db = proceed (m db) (λ _. k)

module _ (r : Storage) where
  abbrev pub give : {A : Type 0} → A → Handler r A
  give a db = (done a, db)

  abbrev pub refuse : {A : Type 0} → ApiError → Handler r A
  refuse e db = (refused e, db)

  -- a reader of the store, with `?`
  abbrev pub read : {A : Type 0} → (Db r → StoreResult A) → Handler r A
  read f db = (api (f db), db)

  -- `state.store.apply(command).await?`
  abbrev pub apply : Settings → Command → Handler r (Unit {0})
  apply settings c db = let (res, after) = Engine.apply r settings.node_id c db in (api res, after)

  -- `let _ = state.store.apply(command).await`
  abbrev pub try_apply : Settings → Command → Handler r (Unit {0})
  try_apply settings c db = (done tt, (Engine.apply r settings.node_id c db).1)

pub ApiResult-cases :
    {A : Type 0} (res : ApiResult A)
    → ((a : A) × (res ≡ done a)) ⊎ ((e : ApiError) × (res ≡ refused e))
ApiResult-cases (done a) = inl (a, refl)
ApiResult-cases (refused e) = inr (e, refl)
