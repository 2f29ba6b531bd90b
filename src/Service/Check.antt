-- ===== src/Service/Check.antt =====
-- service.rs and pg_apply.rs: the checks of requests, and the list of allowed PostgreSQL servers.
use hyperion_vault.Prelude.{
  ℕ, ◌+◌, ◌^◌, List, [], ◌∷◌, ◌++◌, Bool, false, ◌&&◌, ◌||◌, not, Option, none, some, Bytes, ℤ, pos,
  ltb_ℤ, leb_ℤ, ◌==◌, leb, ltb, if◌then◌else◌, codes, bytes_eq, length, any, map, all,
}
use hyperion_vault.Core.Names.{
  is_valid_secret_name, is_normalized_secret_name, max_secret_name_len, is_empty,
}
use hyperion_vault.Core.Rotation.{max_rotation_interval_secs, max_grace_secs}
use hyperion_vault.Core.Decimal.{is_ascii_digit, digits_value}
use hyperion_vault.Store.Model.{PgRoleTarget, RotationTarget, pg_replica}
use hyperion_vault.Api.Error.{
  name_length, name_characters, name_segments, interval_not_positive, interval_too_long,
  grace_negative, grace_too_long, value_empty, value_too_large, field_empty, field_too_large,
  target_has_no_hosts, no_target_hosts, target_not_listed, missing, bad_request, ApiResult, done,
  refused,
}

abbrev pub max_value_len : ℕ
max_value_len = 2 ^ 16

abbrev pub default_pg_port : ℕ
default_pg_port = 5432

unfoldable pub validate_name : Bytes → ApiResult (Unit {0})
validate_name name =
    if is_empty name || ltb max_secret_name_len (length name)
    then refused (bad_request name_length)
    else if not (is_valid_secret_name name)
    then refused (bad_request name_characters)
    else if not (is_normalized_secret_name name)
    then refused (bad_request name_segments)
    else done tt

unfoldable pub known_name : Bytes → ApiResult (Unit {0})
known_name name = if is_valid_secret_name name then done tt else refused missing

unfoldable pub validate_interval : ℤ → ApiResult (Unit {0})
validate_interval secs =
    if leb_ℤ secs (pos 0)
    then refused (bad_request interval_not_positive)
    else if ltb_ℤ max_rotation_interval_secs secs
    then refused (bad_request interval_too_long)
    else done tt

unfoldable pub validate_value : Bytes → ApiResult (Unit {0})
validate_value value =
    if is_empty value
    then refused (bad_request value_empty)
    else if ltb max_value_len (length value)
    then refused (bad_request value_too_large)
    else done tt

unfoldable pub validate_field : Bytes → Bytes → ApiResult (Unit {0})
validate_field label value =
    if is_empty value
    then refused (bad_request (field_empty label))
    else if ltb max_value_len (length value)
    then refused (bad_request (field_too_large label))
    else done tt

unfoldable pub normalize_grace : Option ℤ → ApiResult ℤ
normalize_grace none = done (pos 0)
normalize_grace (some secs) =
    if ltb_ℤ secs (pos 0)
    then refused (bad_request grace_negative)
    else if ltb_ℤ max_grace_secs secs
    then refused (bad_request grace_too_long)
    else done secs

-- `to_ascii_lowercase`
abbrev pub lower : ℕ → ℕ
lower c = if leb b'A' c && leb c b'Z' then c + 32 else c

-- `split_once`: what stands before the first separator and after it
unfoldable pub split_once : ℕ → Bytes → Option (Bytes × Bytes)
split_once sep [] = none
split_once sep (c ∷ s) =
    let rest = split_once sep s in
    if c == sep then some ([], s) else elim rest [ none ↦ none | some (a, b) ↦ some (c ∷ a, b) ]

-- `rsplit_once`: the same for the last separator
unfoldable pub rsplit_once : ℕ → Bytes → Option (Bytes × Bytes)
rsplit_once sep [] = none
rsplit_once sep (c ∷ s) = elim (rsplit_once sep s) [
  | some (a, b) ↦ some (c ∷ a, b)
  | none ↦ if c == sep then some ([], s) else none
]

abbrev pub all_digits : Bytes → Bool
all_digits [] = false
all_digits (c ∷ s) = all is_ascii_digit (c ∷ s)

abbrev pub without_plus : Bytes → Bytes
without_plus [] = []
without_plus (c ∷ s) = if c == b'+' then s else c ∷ s

-- `str::parse::<u16>`
unfoldable pub parse_u16 : Bytes → Option ℕ
unfolding is_ascii_digit digits_value
parse_u16 text =
    if all_digits (without_plus text) && ltb (digits_value 0 (without_plus text)) (2 ^ 16)
    then some (digits_value 0 (without_plus text))
    else none

abbrev pub or_whole : Bytes → Bytes → Option ℕ → Bytes × ℕ
or_whole hostport host none = (hostport, default_pg_port)
or_whole hostport host (some port) = (host, port)

-- what follows the bracket of an address
abbrev pub after_bracket : Bytes → Bytes → Bytes → Bytes × ℕ
after_bracket hostport host [] = (host, default_pg_port)
after_bracket hostport host (c ∷ port) =
    if c == b':' then or_whole hostport host (parse_u16 port) else (hostport, default_pg_port)

abbrev pub split_bracketed : Bytes → Bytes → Bytes × ℕ
split_bracketed hostport rest = elim (split_once b']' rest) [
  | none ↦ (hostport, default_pg_port)
  | some (host, tail) ↦ after_bracket hostport host tail
]

abbrev pub split_plain : Bytes → Bytes × ℕ
split_plain hostport = elim (rsplit_once b':' hostport) [
  | none ↦ (hostport, default_pg_port)
  | some (host, port) ↦
      if any (λ c. c == b':') host
      then (hostport, default_pg_port)
      else or_whole hostport host (parse_u16 port)
]

unfoldable pub split_hostport : Bytes → Bytes × ℕ
unfolding split_once rsplit_once parse_u16
split_hostport [] = split_plain []
split_hostport (c ∷ rest) =
    if c == b'[' then split_bracketed (c ∷ rest) rest else split_plain (c ∷ rest)

abbrev pub same_host : Bytes × ℕ → Bytes × ℕ → Bool
same_host a b = bytes_eq a.0 b.0 && a.1 == b.1

unfoldable pub allows : List (Bytes × ℕ) → Bytes → Bool
unfolding split_hostport
allows hosts hostport =
    let (host, port) = split_hostport hostport in
    any (λ allowed. same_host allowed (map lower host, port)) hosts

-- the host is kept once, in lower case
unfoldable pub push_host : List (Bytes × ℕ) → Bytes → ℕ → List (Bytes × ℕ)
push_host hosts host port =
    if any (λ known. same_host known (map lower host, port)) hosts
    then hosts
    else hosts ++ ((map lower host, port) ∷ [])

unfoldable pub check_hosts : List (Bytes × ℕ) → List Bytes → ApiResult (Unit {0})
unfolding allows
check_hosts allowed [] = done tt
check_hosts allowed (hostport ∷ rest) =
    let later = check_hosts allowed rest in
    if allows allowed hostport then later else refused (bad_request (target_not_listed hostport))

-- `PgTargetPolicy::check`
unfoldable pub check_target : List (Bytes × ℕ) → PgRoleTarget → ApiResult (Unit {0})
unfolding check_hosts
check_target allowed target =
    if length target.hosts == 0
    then refused (bad_request target_has_no_hosts)
    else if length allowed == 0
    then refused (bad_request no_target_hosts)
    else check_hosts allowed target.hosts

abbrev pub optional : {A : Type 0} → (A → ApiResult (Unit {0})) → Option A → ApiResult (Unit {0})
optional check none = done tt
optional check (some a) = check a

abbrev pub both_pass : ApiResult (Unit {0}) → ApiResult (Unit {0}) → ApiResult (Unit {0})
both_pass (done _) next = next
both_pass (refused e) next = refused e

unfoldable pub validate_target : List (Bytes × ℕ) → RotationTarget → ApiResult (Unit {0})
unfolding validate_name validate_field check_target
validate_target allowed (pg_replica pg) =
    both_pass (optional validate_name pg.login_secret) (
      both_pass (optional (validate_field (codes "target.role")) pg.role) (check_target allowed pg))
