-- ===== src/Core/Examples.antt =====
-- The theorems on names, keys of encryption, rotation and rules at concrete inputs.
use hyperion_vault.Prelude.{
  ℕ, leb, ◌==◌, ◌≡◌, refl, ◌↔◌, ◌⊎◌, [], ◌∷◌, true, false, ◌&&◌, some, none, Bytes, pos, ◌+ℤ◌, ◌<ℤ◌,
  codes, Any, arith, List,
}
use hyperion_vault.Core.Aad.{aad_for_inj}
use hyperion_vault.Core.Rotation.{
  version_active, grace_expiry_unix, i64_max, version_active-grace_expiry_iff,
}
use hyperion_vault.Core.Names.{is_valid_secret_name, is_normalized_secret_name, split}
use hyperion_vault.Core.Names.Segments.{is_normalized_secret_name_iff, FromSegments}
use hyperion_vault.Core.Allowlist.{
  Ipnet, parse, parse_tokens, parse_token, allows, Covering, allows-parse_iff,
}
use hyperion_vault.Core.Rbac.{Rule, authorize}
use hyperion_vault.Core.Rbac.Grants.{Grants, authorize_iff}

abbrev name : Bytes
name = codes "db/password"

abbrev rules : List Rule
rules = (codes "rotate", codes "db/*") ∷ []

aad_for_inj_example : (name ≡ name) × (pos 3 ≡ pos 3)
aad_for_inj_example = aad_for_inj name name (pos 3) (pos 3) refl

version_active-grace_expiry_iff_example :
    (version_active (pos 105) (some (grace_expiry_unix (pos 100) (pos 10))) ≡ true)
    ↔ ((pos 105 <ℤ pos 100 +ℤ pos 10) × (pos 105 <ℤ i64_max))
version_active-grace_expiry_iff_example =
    version_active-grace_expiry_iff (pos 105) (pos 100) (pos 10) (ground arith) (ground arith)
      (ground arith)

is_normalized_secret_name_iff_example :
    (is_normalized_secret_name name ≡ true)
    ↔ ((is_valid_secret_name name ≡ true) × FromSegments name)
is_normalized_secret_name_iff_example = is_normalized_secret_name_iff name

authorize_iff_example :
    (authorize false rules (codes "rotate") name ≡ true)
    ↔ ((false ≡ true) ⊎ Any (λ rule. Grants rule (codes "rotate") name) rules)
authorize_iff_example = authorize_iff false rules (codes "rotate") name

-- networks as ranges of addresses, written as one or two bytes
abbrev same_host : (a ip : ℕ) → (leb a ip && leb ip a) ≡ (a == ip)
same_host a ip = ground arith

abbrev nets : Ipnet
nets = record {
  Net = ℕ × ℕ;
  parse_net = λ s. none;
  parse_addr = λ s. elim s [ [] ↦ none | c ∷ rest ↦ some c ];
  host = λ a. (a, a);
  contains = λ net ip. leb net.0 ip && leb ip net.1;
  trim = λ s. s;
  contains-host = same_host;
}

allows-parse_iff_example :
    (allows nets ((50, 50) ∷ (60, 60) ∷ []) 60 ≡ true)
    ↔ Any (Covering nets 60) (split b',' (50 ∷ b',' ∷ 60 ∷ []))
unfolding parse parse_tokens parse_token split
allows-parse_iff_example =
    allows-parse_iff nets 60 (50 ∷ b',' ∷ 60 ∷ []) ((50, 50) ∷ (60, 60) ∷ []) refl
