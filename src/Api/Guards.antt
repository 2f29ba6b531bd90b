-- ===== src/Api/Guards.antt =====
-- guards.rs: who makes a request. A header is given as its text, when it is visible ASCII.
pub mod Tokens
use hyperion_vault.Prelude.{
  ℕ, ◌-ℤ◌, List, [], ◌∷◌, ◌++◌, Bool, true, false, ◌||◌, ◌&&◌, not, Option, none, some, Bytes, ℤ,
  ◌==◌, leb, leb_ℤ, ltb_ℤ, if◌then◌else◌, codes, is_some,
}
use hyperion_vault.Core.Rbac.{Rule}
use hyperion_vault.Core.Rotation.{i64_max, i64_min}
use hyperion_vault.Store.Model.{RoleRecord, TokenRecord, touch_token}
use hyperion_vault.Store.Redb.{Storage}
use hyperion_vault.Store.Db.{Db}
use hyperion_vault.Store.Engine
use hyperion_vault.Api.Error.{
  IpAddr, v4, v6, Outside, Settings, ApiError, unauthorized, forbidden, ApiResult, done, refused,
  Handler, proceed, ◌>>=◌, ◌>>◌, give, refuse, read, try_apply,
}
use hyperion_vault.Api.Lockout.{check, check_ip, record_ip}
use hyperion_vault.Api.Authz.{AdminActor}

-- what a request carries: two headers, and the address of its connection
pub record Parts : Type 0 where
  pub authorization : Option Bytes
  pub forwarded_for : Option Bytes
  pub connection : Option IpAddr

-- ASCII white space
abbrev pub is_space : ℕ → Bool
is_space c = (leb 9 c && leb c 13) || c == 32

unfoldable pub trim_start : Bytes → Bytes
trim_start [] = []
trim_start (c ∷ s) = let rest = trim_start s in if is_space c then rest else c ∷ s

unfoldable pub trim_end : Bytes → Bytes
trim_end [] = []
trim_end (c ∷ s) = elim (trim_end s) [
  | [] ↦ if is_space c then [] else c ∷ []
  | d ∷ rest ↦ c ∷ d ∷ rest
]

unfoldable pub trim : Bytes → Bytes
unfolding trim_start trim_end
trim s = trim_end (trim_start s)

unfoldable pub strip_prefix : Bytes → Bytes → Option Bytes
strip_prefix [] s = some s
strip_prefix (x ∷ p) [] = none
strip_prefix (x ∷ p) (y ∷ s) = let rest = strip_prefix p s in if x == y then rest else none

abbrev pub or_else {ℓ} : {A : Type ℓ} → Option A → Option A → Option A
or_else none other = other
or_else (some a) other = some a

abbrev pub nonempty : Bytes → Option Bytes
nonempty [] = none
nonempty (c ∷ s) = some (c ∷ s)

abbrev pub token_of : Option Bytes → Option Bytes
token_of none = none
token_of (some rest) = nonempty (trim rest)

unfoldable pub bearer_token : Parts → Option Bytes
unfolding strip_prefix trim
bearer_token parts = elim parts.authorization [
  | none ↦ none
  | some header ↦
      token_of
        (or_else (strip_prefix (codes "Bearer ") header) (strip_prefix (codes "bearer ") header))
]

unfoldable pub peer_ip : Parts → Option IpAddr
peer_ip parts = parts.connection

-- the text before the first comma
unfoldable pub first_entry : Bytes → Bytes
first_entry [] = []
first_entry (c ∷ s) = let rest = first_entry s in if c == b',' then [] else c ∷ rest

unfoldable pub client_ip : Outside → Parts → Bool → Option IpAddr
unfolding first_entry trim peer_ip
client_ip outside parts trust_proxy =
    if trust_proxy
    then elim parts.forwarded_for [
      | none ↦ peer_ip parts
      | some value ↦ or_else (outside.parse_ip (trim (first_entry value))) (peer_ip parts)
    ]
    else peer_ip parts

-- `i64::saturating_sub`
abbrev pub saturating_sub : ℤ → ℤ → ℤ
saturating_sub a b =
    if ltb_ℤ i64_max (a -ℤ b) then i64_max else if ltb_ℤ (a -ℤ b) i64_min then i64_min else a -ℤ b

-- `now.saturating_sub(at) >= touch_secs`, or the token was never used
abbrev pub touch_due : Settings → ℤ → Option ℤ → Bool
touch_due settings now none = true
touch_due settings now (some at) = leb_ℤ settings.token_touch_secs (saturating_sub now at)

-- an admin flag and rules: those of the role, or none
abbrev pub powers : Option RoleRecord → Bool × List Rule
powers none = (false, [])
powers (some role) = (role.is_admin, role.permissions)

-- `Some(record) if record.revoked_at.is_none()`
abbrev pub live_token : Option TokenRecord → Option TokenRecord
live_token none = none
live_token (some token) = if is_some token.revoked_at then none else some token

module _ (r : Storage) (outside : Outside) (settings : Settings) (now : ℤ) where
  abbrev pub role_powers : Option Bytes → Handler r (Bool × List Rule)
  role_powers none = give r (false, [])
  role_powers (some name) = do role ← read r (λ db. Engine.role r db name); give r (powers role)

  abbrev pub unauthenticated : {A : Type 0} → Parts → Handler r A
  unauthenticated parts = do record_ip r outside settings now (peer_ip parts); refuse r unauthorized

  abbrev pub actor_of : Parts → TokenRecord → Bool × List Rule → AdminActor
  actor_of parts token power = record {
    name = token.name;
    is_admin = power.0;
    rules = power.1;
    client_ip = client_ip outside parts settings.trust_proxy;
    peer_ip = peer_ip parts;
  }

  abbrev pub touch_if_due : Bytes → TokenRecord → Handler r (Unit {0})
  touch_if_due fingerprint token =
      if touch_due settings now token.last_used_at
      then try_apply r settings (touch_token fingerprint now)
      else give r tt

  -- the token is not revoked: its powers, and its time of use if that is due
  abbrev pub accept : Parts → Bytes → TokenRecord → Handler r AdminActor
  accept parts fingerprint token = do
    power ← role_powers token.role
    touch_if_due fingerprint token
    give r (actor_of parts token power)

  unfoldable pub admin_actor : Parts → Handler r AdminActor
  unfolding check record_ip
  admin_actor parts = do
    check r outside settings now (peer_ip parts)
    elim (bearer_token parts) [
      | none ↦ unauthenticated parts
      | some token ↦ do
        found ← read r (λ db. Engine.token_by_fingerprint r db (outside.fingerprint token))
        elim (live_token found) [
          | none ↦ unauthenticated parts
          | some live ↦ accept parts (outside.fingerprint token) live
        ]
    ]

  -- the addresses of a reader; the allowlist is a test on IPv4 addresses
  unfoldable pub reader_guard : (ℕ → Bool) → Parts → Handler r (ℕ × IpAddr)
  unfolding check_ip record_ip
  reader_guard allowed parts = elim (peer_ip parts) [
    | none ↦ refuse r forbidden
    | some peer ↦ elim (client_ip outside parts settings.trust_proxy) [
      | none ↦ refuse r forbidden
      | some ip ↦ do
        check_ip r outside settings now peer
        elim ip [
          | v4 address ↦
              if allowed address
              then give r (address, peer)
              else do record_ip r outside settings now (some peer); refuse r forbidden
          | v6 address ↦ do record_ip r outside settings now (some peer); refuse r forbidden
        ]
    ]
  ]
