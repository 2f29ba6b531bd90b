-- ===== src/Core/Names.antt =====
-- crates/hyperion-vault-core/src/types.rs: secret kinds and formats, and the rules for secret names
-- and versions. `str::split` and the tests on characters are written over bytes.
pub mod Segments
pub mod Words
use hyperion_vault.Prelude.{
  ℕ, suc, ◌+◌, ◌≤◌, ◌<◌, ◌≡◌, refl, ◌≢◌, ◌↔◌, List, [], ◌∷◌, ◌++◌, Bool, true, false, ◌&&◌, ◌||◌,
  not, Option, none, some, arith, Bytes, ℤ, pos, leb, leb_ℤ, ◌==◌, bytes_eq, bytes_eq_iff,
  if◌then◌else◌, All, all, length, codes, starts_with, Bool-cases, inl, inr,
}
use hyperion_vault.Core.Decimal.{is_ascii_digit}

pub data SecretKind : Type 0 where
  manual automatic : SecretKind

pub data SecretFormat : Type 0 where
  opaque userpass : SecretFormat

unfoldable pub kind_text : SecretKind → Bytes
kind_text manual = codes "manual"
kind_text automatic = codes "automatic"

unfoldable pub parse_kind : Bytes → Option SecretKind
parse_kind value =
    if bytes_eq value (codes "manual")
    then some manual
    else if bytes_eq value (codes "automatic")
    then some automatic
    else none

unfoldable pub format_text : SecretFormat → Bytes
format_text opaque = codes "opaque"
format_text userpass = codes "userpass"

unfoldable pub parse_format : Bytes → Option SecretFormat
parse_format value =
    if bytes_eq value (codes "opaque")
    then some opaque
    else if bytes_eq value (codes "userpass")
    then some userpass
    else none

abbrev pub max_secret_name_len : ℕ
max_secret_name_len = 255

abbrev pub min_secret_version : ℤ
min_secret_version = pos 1

pub is_ascii_alphanumeric : ℕ → Bool
unfolding is_ascii_digit
is_ascii_alphanumeric c =
    is_ascii_digit c || (leb b'A' c && leb c b'Z') || (leb b'a' c && leb c b'z')

-- the characters of a secret name
unfoldable pub name_char : ℕ → Bool
unfolding is_ascii_alphanumeric
name_char c = is_ascii_alphanumeric c || c == b'-' || c == b'_' || c == b'/' || c == b'.'

abbrev pub is_empty : Bytes → Bool
is_empty [] = true
is_empty (c ∷ s) = false

unfoldable pub is_valid_secret_name : Bytes → Bool
is_valid_secret_name name =
    not (is_empty name) && leb (length name) max_secret_name_len && all name_char name

unfoldable pub is_valid_secret_version : ℤ → Bool
is_valid_secret_version version = leb_ℤ min_secret_version version

-- `split`: the parts between separators, one at least
abbrev onto_first : ℕ → List Bytes → List Bytes
onto_first c [] = (c ∷ []) ∷ []
onto_first c (part ∷ parts) = (c ∷ part) ∷ parts

unfoldable pub split : ℕ → Bytes → List Bytes
split sep [] = [] ∷ []
split sep (c ∷ s) = let rest = split sep s in if c == sep then [] ∷ rest else onto_first c rest

unfoldable pub ends_with_byte : ℕ → Bytes → Bool
ends_with_byte x [] = false
ends_with_byte x (c ∷ []) = c == x
ends_with_byte x (c ∷ d ∷ s) = ends_with_byte x (d ∷ s)

unfoldable pub clean_segment : Bytes → Bool
clean_segment segment =
    not (is_empty segment)
    && not (bytes_eq segment (codes "."))
    && not (bytes_eq segment (codes ".."))

unfoldable pub is_normalized_secret_name : Bytes → Bool
is_normalized_secret_name name =
    is_valid_secret_name name
    && not (starts_with name (codes "/"))
    && not (ends_with_byte b'/' name)
    && all clean_segment (split b'/' name)
