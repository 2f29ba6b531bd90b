-- ===== src/Raft/Peer.antt =====
-- raft/peer.rs: the token between nodes, and the addresses and ids of peers. The resolver of host names
-- and the candidate of a vote are arguments.
use hyperion_vault.Prelude.{
  ℕ, List, Bool, true, ◌&&◌, not, Option, none, some, Bytes, bytes_eq, codes, is_some, any, ◌++◌,
  if◌then◌else◌, ◌==◌,
}
use hyperion_vault.Api.Guards.{strip_prefix, trim}

pub record PeerAuth : Type 0 where
  pub header : Option Bytes
  pub fingerprint : Option Bytes
  pub required : Bool

pub record PeerAddrs (Ip : Type 0) : Type 0 where
  pub enabled : Bool
  pub ids : List ℕ
  pub hosts : List Bytes
  pub resolved : List Ip

abbrev mapped : Option Bytes → (Bytes → Bytes) → Option Bytes
mapped none f = none
mapped (some a) f = some (f a)

abbrev or_else : Option Bytes → Option Bytes → Option Bytes
or_else none other = other
or_else (some a) other = some a

abbrev presented_token : Option Bytes → Option Bytes
presented_token none = none
presented_token (some value) =
    or_else (strip_prefix (codes "Bearer ") value) (strip_prefix (codes "bearer ") value)

module _ (fingerprint_of : Bytes → Bytes) where
  -- a token that is required and not there is an error
  unfoldable pub peer_auth : Option Bytes → Bool → Option PeerAuth
  peer_auth token required =
      if required && not (is_some token)
      then none
      else some (record {
        header = mapped token (λ t. codes "Bearer " ++ t);
        fingerprint = mapped token fingerprint_of;
        required = required;
      })

  unfoldable pub accepts : PeerAuth → Option Bytes → Bool
  unfolding strip_prefix trim
  accepts auth presented = elim auth.fingerprint [
    | none ↦ true
    | some expected ↦ elim (presented_token presented) [
      | some token ↦ bytes_eq (fingerprint_of (trim token)) expected
      | none ↦ not auth.required
    ]
  ]

module _ {Ip : Type 0} (same : Ip → Ip → Bool) where
  -- an address that is not known is looked for once more, in what the hosts resolve to now
  unfoldable pub allows : PeerAddrs Ip → List Ip → Ip → Bool × PeerAddrs Ip
  allows addrs fresh ip =
      if not addrs.enabled
      then (true, addrs)
      else if any (same ip) addrs.resolved
      then (true, addrs)
      else (any (same ip) fresh, record addrs { resolved = fresh })

  unfoldable pub allows_leader : PeerAddrs Ip → Option ℕ → Bool
  allows_leader addrs voted_for = elim voted_for [
    | none ↦ true
    | some id ↦ any (λ known. known == id) addrs.ids
  ]
