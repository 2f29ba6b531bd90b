-- ===== src/Store/Keys/Exact.antt =====
-- The keys of the version table: which secret and version a key belongs to, and where it sorts.
use hyperion_vault.Prelude.{
  ℕ, ◌^◌, ◌<◌, ◌≡◌, refl, sym, ap, ◌∙◌, ◌≢◌, ◌↔◌, [], ◌∷◌, ◌++◌, true, false, some, Bytes, ℤ, pos,
  ==_iff, bytes_eq_iff, bytes_lt, length, all, All, arith, Option-cases, inl, inr, IsI32, ◌≤ℤ◌,
}
use hyperion_vault.Core.Decimal.{IsDigit, is_ascii_digit, digits_value}
use hyperion_vault.Store.Keys.{
  version_field, version_key, version_lower, version_upper, split_once, parse_i32_digits,
  split_version_key, version_from_key, parse_field,
}
use hyperion_vault.Store.Keys.Digits.{
  put_digits, length-put_digits, put_digits-digits, digits_value-put_digits,
  put_digits-digits_value, all-is_ascii_digit_iff,
}

-- no zero byte: what every valid name and every run of digits has
abbrev pub NoZero : Bytes → Type 0
NoZero s = All (λ c. c ≢ 0) s

split_once-append :
    (sep : ℕ) (s t : Bytes) → All (λ c. c ≢ sep) s → split_once sep (s ++ sep ∷ t) ≡ some (s, t)
unfolding split_once
split_once-append sep [] t h = ground (arith, ==_iff sep sep)
split_once-append sep (c ∷ s) t h = ground (arith, ==_iff c sep, split_once-append sep s t h.1)

split_once-some :
    (sep : ℕ) (key front back : Bytes)
    → split_once sep key ≡ some (front, back)
    → (key ≡ front ++ sep ∷ back) × All (λ c. c ≢ sep) front
unfolding split_once
split_once-some sep [] front back h = cc
split_once-some sep (c ∷ s) [] back h = ground (arith, ==_iff c sep)
split_once-some sep (c ∷ s) (x ∷ front) back h =
    let later : (c ≡ x) × (c ≢ sep) × (split_once sep s ≡ some (front, back)) =
      ground (arith, ==_iff c sep) in
    let tail = split_once-some sep s front back later.2 in
    (ground (arith, later.0, tail.0), ((rw (← later.0) later.1), tail.1))

module _ (n : ℕ) (fits : n < 2 ^ 31) where
  field_length : length (version_field (pos n)) ≡ 10
  unfolding version_field
  field_length = omega (arith, length-put_digits 10 n [])

  field_digits : All IsDigit (version_field (pos n))
  unfolding version_field
  field_digits = put_digits-digits 10 n [] tt

  field_value : digits_value 0 (version_field (pos n)) ≡ n
  unfolding version_field digits_value
  field_value = digits_value-put_digits 10 n [] (omega arith)

-- The key of a version that is not negative parses back to its secret and version.
pub split-version_key :
    (name : Bytes) (n : ℕ)
    → NoZero name
    → n < 2 ^ 31
    → split_version_key (version_key name (pos n)) ≡ some (name, pos n)
unfolding split_version_key version_key parse_i32_digits
split-version_key name n clean fits = ground (
  arith,
  split_once-append 0 name (version_field (pos n)) clean,
  field_length n fits,
  (all-is_ascii_digit_iff (version_field (pos n))).1 (field_digits n fits),
  field_value n fits,
)

parse_field-some :
    (front back name : Bytes) (v : ℤ)
    → parse_field (some (front, back)) ≡ some (name, v)
    → (front ≡ name)
      × (length back ≡ 10)
      × (all is_ascii_digit back ≡ true)
      × (digits_value 0 back < 2 ^ 31)
      × (v ≡ pos (digits_value 0 back))
unfolding parse_i32_digits
parse_field-some front back name v h = ground arith

-- ten digits are the field of their value
field-digits_value :
    (s : Bytes) → All IsDigit s → length s ≡ 10 → version_field (pos (digits_value 0 s)) ≡ s
unfolding version_field
field-digits_value s h ten =
    ap (λ w. put_digits w (digits_value 0 s) []) (sym ten) ∙ put_digits-digits_value s h

split_version_key_lem : (key : Bytes) → split_version_key key ≡ parse_field (split_once 0 key)
unfolding split_version_key
split_version_key_lem key = refl

split_version_key_parts :
    (key name front back : Bytes) (v : ℤ)
    → split_version_key key ≡ some (name, v)
    → split_once 0 key ≡ some (front, back)
    → (key ≡ version_key name v) × NoZero name × IsI32 v × (pos 0 ≤ℤ v)
unfolding version_key
split_version_key_parts key name front back v h e =
    let parsed =
      parse_field-some front back name v (sym (split_version_key_lem key ∙ ap parse_field e) ∙ h) in
    let parts = split_once-some 0 key front back e in
    let field : version_field v ≡ back =
      rw parsed.4 (field-digits_value back ((all-is_ascii_digit_iff back).0 parsed.2) parsed.1) in
    (
      parts.0 ∙ ground (arith, parsed.0, field),
      rw parsed.0 at parts.1,
      rw parsed.4 (omega arith),
      rw parsed.4 (omega arith),
    )

-- A key that parses is the key of what it parses to, and that version is an `i32` that is not
-- negative.
pub split_version_key-some :
    (key name : Bytes) (v : ℤ)
    → split_version_key key ≡ some (name, v)
    → (key ≡ version_key name v) × NoZero name × IsI32 v × (pos 0 ≤ℤ v)
split_version_key-some key name v h = elim (Option-cases (split_once 0 key)) [
  | inl e ↦ cc (split_version_key_lem key ∙ ap parse_field e)
  | inr ((front, back), e) ↦ split_version_key_parts key name front back v h e
]

shifted_lt : (name s t : Bytes) → bytes_lt (name ++ s) (name ++ t) ≡ bytes_lt s t
unfolding bytes_lt
shifted_lt [] s t = refl
shifted_lt (c ∷ name) s t = ground (arith, ==_iff c c, shifted_lt name s t)

-- For a name with no zero byte, a key belongs to a secret and version exactly when it is the key
-- that they make, for versions that are `i32` and not negative.
pub version_from_key_iff :
    (name key : Bytes) (n : ℕ)
    → NoZero name
    → n < 2 ^ 31
    → (version_from_key name key ≡ some (pos n)) ↔ (key ≡ version_key name (pos n))
unfolding version_from_key
version_from_key_iff name key n clean fits = (
  λ h. elim (Option-cases (split_version_key key)) [
    | inl e ↦ ground arith
    | inr ((parsed, v), e) ↦
        ground (arith, bytes_eq_iff parsed name, (split_version_key-some key parsed v e).0)
  ],
  λ e. rw e (ground (arith, split-version_key name n clean fits, bytes_eq_iff name name)),
)

-- A key that belongs to a secret lies in the range that is scanned for that secret.
pub version_from_key_in_range :
    (name key : Bytes) (v : ℤ)
    → version_from_key name key ≡ some v
    → (bytes_lt key (version_lower name) ≡ false) × (bytes_lt key (version_upper name) ≡ true)
unfolding version_from_key version_lower version_upper
version_from_key_in_range name key v h = elim (Option-cases (split_version_key key)) [
  | inl e ↦ ground arith
  | inr ((parsed, w), e) ↦
      let same : parsed ≡ name = ground (arith, bytes_eq_iff parsed name) in
      let found : key ≡ name ++ 0 ∷ version_field w =
        unfold version_key in
        (split_version_key-some key parsed w e).0 ∙ ap (λ m. m ++ 0 ∷ version_field w) same in
      (
        rw (found, shifted_lt name (0 ∷ version_field w) (0 ∷ [])) (unfold bytes_lt in refl),
        rw (found, shifted_lt name (0 ∷ version_field w) (1 ∷ [])) (unfold bytes_lt in refl),
      )
]
