-- ===== src/Store/Keys.antt =====
-- store/engine.rs: the key of a version row is the secret's name, a zero byte and the version number
-- in ten characters.
mod Digits
pub mod Exact
use hyperion_vault.Prelude.{
  ℕ, zero, suc, ◌-◌, ◌^◌, List, [], ◌∷◌, ◌++◌, Bool, ◌&&◌, ◌||◌, not, Option, none, some, Bytes, ℤ,
  pos, negsuc, leb, ltb, ◌==◌, bytes_eq, if◌then◌else◌, length, all,
}
use hyperion_vault.Core.Decimal.{is_ascii_digit, digits_value}
use Digits.{put_digits}

abbrev pub version_field_width : ℕ
version_field_width = 10

-- the format `{version:010}`: zeros fill up to ten characters, after the sign if there is one
unfoldable pub version_field : ℤ → Bytes
unfolding put_digits
version_field (pos n) = put_digits 10 n []
version_field (negsuc n) =
    b'-' ∷ (if ltb (suc n) (10 ^ 9) then put_digits 9 (suc n) [] else put_digits 10 (suc n) [])

unfoldable pub version_key : Bytes → ℤ → Bytes
version_key name version = name ++ 0 ∷ version_field version

unfoldable pub version_lower : Bytes → Bytes
version_lower name = name ++ 0 ∷ []

unfoldable pub version_upper : Bytes → Bytes
version_upper name = name ++ 1 ∷ []

-- `split_once`: what stands before and after the first separator
abbrev pub before_more : ℕ → Option (Bytes × Bytes) → Option (Bytes × Bytes)
before_more c none = none
before_more c (some (front, back)) = some (c ∷ front, back)

unfoldable pub split_once : ℕ → Bytes → Option (Bytes × Bytes)
split_once sep [] = none
split_once sep (c ∷ s) =
    let more = split_once sep s in if c == sep then some ([], s) else before_more c more

-- `parse::<i32>()` of a text that is all digits
unfoldable pub parse_i32_digits : Bytes → Option ℤ
parse_i32_digits s = let n = digits_value 0 s in if leb n (2 ^ 31 - 1) then some (pos n) else none

abbrev pub with_name : Bytes → Option ℤ → Option (Bytes × ℤ)
with_name name none = none
with_name name (some v) = some (name, v)

abbrev pub parse_field : Option (Bytes × Bytes) → Option (Bytes × ℤ)
parse_field none = none
parse_field (some (name, rest)) =
    if not (length rest == version_field_width) || not (all is_ascii_digit rest)
    then none
    else with_name name (parse_i32_digits rest)

unfoldable pub split_version_key : Bytes → Option (Bytes × ℤ)
unfolding is_ascii_digit
split_version_key key = parse_field (split_once 0 key)

abbrev pub version_if : Bytes → Option (Bytes × ℤ) → Option ℤ
version_if name none = none
version_if name (some (parsed, version)) = if bytes_eq parsed name then some version else none

unfoldable pub version_from_key : Bytes → Bytes → Option ℤ
version_from_key name key = version_if name (split_version_key key)
