-- ===== src/Service/Verify.antt =====
-- service.rs: the verification of a presented value.
use hyperion_vault.Prelude.{
  ℕ, List, [], ◌∷◌, Bool, true, false, Option, none, some, Bytes, ℤ, if◌then◌else◌, codes, length,
  bytes_eq, ◌==◌,
}
use hyperion_vault.Core.Names.{SecretFormat, opaque, userpass}
use hyperion_vault.Store.Model.{SecretRecord, VersionRecord}
use hyperion_vault.Store.Engine
use hyperion_vault.Api.Error.{IpAddr}
use hyperion_vault.Api.Lockout
use hyperion_vault.Service.Site.{Site, Op, ◌>>=◌, ◌>>◌, give, checked, read, on_db}
use hyperion_vault.Service.Check.{known_name}
use hyperion_vault.Service.Seal.{audit, open_version}

pub record VerifyResponse : Type 0 where
  pub valid : Bool
  pub version : Option ℤ

abbrev pub rejected : VerifyResponse
rejected = record { valid = false; version = none }

module _ (s : Site) (now : ℤ) (tick : ℕ) where
  -- whether the presented bytes are those of a version
  unfoldable pub matches : SecretFormat → Bytes → Bytes → Bool
  matches opaque presented plaintext = bytes_eq presented plaintext
  matches userpass presented plaintext = elim (s.externals.decode_userpass plaintext) [
    | none ↦ false
    | some up ↦ bytes_eq presented up.password
  ]

  -- the loop over the live versions: the first one that matches
  unfoldable pub first_match : Bytes → SecretFormat → Bytes → List VersionRecord → Op s (Option ℤ)
  unfolding open_version matches
  first_match name format presented [] = give s none
  first_match name format presented (version ∷ versions) = do
    plaintext ← open_version s tick name version.version version
    if matches format presented plaintext
        then give s (some version.version)
        else first_match name format presented versions

  abbrev pub match_live : Bytes → Bytes → Option SecretRecord → Op s (Option ℤ)
  match_live name presented none = give s none
  match_live name presented (some secret) = do
    versions ← read s (λ db. Engine.live_versions s.r db name now)
    first_match name secret.format presented versions

  abbrev reject : IpAddr → IpAddr → Bytes → Op s VerifyResponse
  reject client_ip peer_ip name = do
    audit s now none (some client_ip) (codes "verify") (some name) (codes "invalid")
    on_db s (Lockout.record_verify s.r s.outside s.settings now peer_ip name)
    give s rejected

  abbrev accept : IpAddr → Bytes → ℤ → Op s VerifyResponse
  accept client_ip name version = do
    audit s now none (some client_ip) (codes "verify") (some name) (codes "valid")
    give s (record { valid = true; version = some version })

  abbrev present : Bytes → IpAddr → IpAddr → Bytes → Op s VerifyResponse
  present name client_ip peer_ip presented = do
    found ← read s (λ db. Engine.secret s.r db name)
    hit ← match_live name presented found
    elim hit [ none ↦ reject client_ip peer_ip name | some version ↦ accept client_ip name version ]

  unfoldable pub verify : Bytes → IpAddr → IpAddr → Bytes → Op s VerifyResponse
  unfolding known_name Lockout.check_verify Lockout.record_verify first_match audit Engine.secret
      Engine.live_versions
  verify name client_ip peer_ip presented = do
    checked s (known_name name)
    on_db s (Lockout.check_verify s.r s.outside s.settings now peer_ip name)
    if length presented == 0
        then reject client_ip peer_ip name
        else present name client_ip peer_ip presented
