-- ===== src/Store/Keys/Digits.antt =====
-- Runs of digits of a fixed width, and their values.
use native.Mathlib.Nat.{pow-suc}
use mathlib.Core.List.{append-nil}
use mathlib.Core.Path.{ap, ap₂, ◌∙◌}
use hyperion_vault.Prelude.{
  ℕ, zero, suc, ◌+◌, ◌-◌, ◌*◌, ◌/◌, ◌%◌, ◌^◌, ◌<◌, ◌≡◌, refl, ◌↔◌, [], ◌∷◌, ◌++◌, true, Bytes,
  arith, All, all, length,
}
use hyperion_vault.Core.Decimal.{is_ascii_digit, digits_value, IsDigit}

-- the last `w` digits of a number, before a rest
unfoldable pub put_digits : ℕ → ℕ → Bytes → Bytes
put_digits zero n rest = rest
put_digits (suc w) n rest = put_digits w (n / 10) ((n % 10 + 48) ∷ rest)

pub length-put_digits : (w n : ℕ) (rest : Bytes) → length (put_digits w n rest) ≡ w + length rest
unfolding put_digits
length-put_digits zero n rest = omega arith
length-put_digits (suc w) n rest =
    omega (arith, length-put_digits w (n / 10) ((n % 10 + 48) ∷ rest))

pub put_digits-digits :
    (w n : ℕ) (rest : Bytes) → All IsDigit rest → All IsDigit (put_digits w n rest)
unfolding put_digits
put_digits-digits zero n rest h = h
put_digits-digits (suc w) n rest h =
    put_digits-digits w (n / 10) ((n % 10 + 48) ∷ rest) (omega arith, h)

-- A number below ten to the width is the value of its digits.
pub digits_value-put_digits :
    (w n : ℕ) (rest : Bytes)
    → n < 10 ^ w
    → digits_value 0 (put_digits w n rest) ≡ digits_value n rest
unfolding put_digits digits_value
digits_value-put_digits zero n rest h = let e : n ≡ 0 = omega arith in rw e
digits_value-put_digits (suc w) n rest h =
    digits_value-put_digits w (n / 10) ((n % 10 + 48) ∷ rest) (omega (arith, pow-suc 10 w))
    ∙ ap (λ t. digits_value t rest) (omega arith)

put_digits-value :
    (s rest : Bytes) (acc k : ℕ)
    → All IsDigit s
    → put_digits (length s + k) (digits_value acc s) rest ≡ put_digits k acc (s ++ rest)
unfolding put_digits digits_value
put_digits-value [] rest acc k h =
    let width : 0 + k ≡ k = omega arith in ap (λ w. put_digits w acc rest) width
put_digits-value (c ∷ s) rest acc k h =
    let width : suc (length s) + k ≡ length s + suc k = omega arith in
    let front : (acc * 10 + (c - 48)) / 10 ≡ acc = omega arith in
    let last : (acc * 10 + (c - 48)) % 10 + 48 ≡ c = omega arith in
    ap (λ w. put_digits w (digits_value (acc * 10 + (c - 48)) s) rest) width
    ∙ put_digits-value s rest (acc * 10 + (c - 48)) (suc k) h.1
    ∙ ap₂ (λ q d. put_digits k q (d ∷ s ++ rest)) front last

-- A run of digits is printed from its value, at its own width.
pub put_digits-digits_value :
    (s : Bytes) → All IsDigit s → put_digits (length s) (digits_value 0 s) [] ≡ s
unfolding put_digits
put_digits-digits_value s h =
    let width : length s ≡ length s + 0 = omega arith in
    ap (λ w. put_digits w (digits_value 0 s) []) width ∙ put_digits-value s [] 0 0 h ∙ append-nil s

pub all-is_ascii_digit_iff : (s : Bytes) → (all is_ascii_digit s ≡ true) ↔ All IsDigit s
unfolding is_ascii_digit
all-is_ascii_digit_iff s = (to_All s, from_All s)
  where
    to_All : (s : Bytes) → all is_ascii_digit s ≡ true → All IsDigit s
    to_All [] h = tt
    to_All (c ∷ s) h = (ground arith, to_All s (ground arith))

    from_All : (s : Bytes) → All IsDigit s → all is_ascii_digit s ≡ true
    from_All [] h = refl
    from_All (c ∷ s) h = ground (arith, from_All s h.1)
