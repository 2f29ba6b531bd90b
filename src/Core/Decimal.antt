-- ===== src/Core/Decimal.antt =====
-- The decimal text of an `i32` (`to_string`) and the value of a run of digits.
use hyperion_vault.Prelude.{
  ℕ, zero, suc, ◌+◌, ◌-◌, ◌*◌, ◌/◌, ◌%◌, ◌<◌, ◌≤◌, ◌≡◌, refl, ap, [], ◌∷◌, ◌++◌, Bool, arith, Bytes,
  ℤ, pos, negsuc, ltb, leb, ◌&&◌, if◌then◌else◌, All, All-append, Bool-cases, inl, inr,
}

unfoldable pub is_ascii_digit : ℕ → Bool
is_ascii_digit c = leb b'0' c && leb c b'9'

-- the value that a run of digits adds to an accumulator
unfoldable pub digits_value : ℕ → Bytes → ℕ
digits_value acc [] = acc
digits_value acc (c ∷ cs) = digits_value (acc * 10 + (c - 48)) cs

-- Rounds of division by ten; `suc n` rounds are enough for `n`.
decimal_rounds : ℕ → ℕ → Bytes
decimal_rounds zero n = []
decimal_rounds (suc f) n =
    let front = decimal_rounds f (n / 10) in
    if ltb n 10 then (n + 48) ∷ [] else front ++ (n % 10 + 48) ∷ []

unfoldable pub decimal : ℕ → Bytes
unfolding decimal_rounds
decimal n = decimal_rounds (suc n) n

unfoldable pub int_text : ℤ → Bytes
int_text (pos n) = decimal n
int_text (negsuc n) = b'-' ∷ decimal (suc n)

abbrev pub IsDigit : ℕ → Type 0
IsDigit c = (48 ≤ c) × (c ≤ 57)

pub digits_value-append :
    (acc : ℕ) (s t : Bytes) → digits_value acc (s ++ t) ≡ digits_value (digits_value acc s) t
unfolding digits_value
digits_value-append acc [] t = refl
digits_value-append acc (c ∷ s) t = digits_value-append (acc * 10 + (c - 48)) s t

decimal_rounds-digits : (f n : ℕ) → All IsDigit (decimal_rounds f n)
unfolding decimal_rounds
decimal_rounds-digits zero n = tt
decimal_rounds-digits (suc f) n = elim (Bool-cases (ltb n 10)) [
  | inl small ↦ rw small (ground arith)
  | inr large ↦ rw large (
      All-append IsDigit (decimal_rounds f (n / 10)) ((n % 10 + 48) ∷ [])
        (decimal_rounds-digits f (n / 10)) (omega arith))
]

pub decimal-digits : (n : ℕ) → All IsDigit (decimal n)
unfolding decimal
decimal-digits n = decimal_rounds-digits (suc n) n

digits_value-decimal_rounds : (f n : ℕ) → n < f → digits_value 0 (decimal_rounds f n) ≡ n
unfolding decimal_rounds digits_value
digits_value-decimal_rounds zero n h = elim h [ ]
digits_value-decimal_rounds (suc f) n h = elim (Bool-cases (ltb n 10)) [
  | inl small ↦ rw small (omega arith)
  | inr large ↦
      rw (large, digits_value-append 0 (decimal_rounds f (n / 10)) ((n % 10 + 48) ∷ []))
        (ground (arith, digits_value-decimal_rounds f (n / 10)))
]

-- The text of a number has its value.
pub digits_value-decimal : (n : ℕ) → digits_value 0 (decimal n) ≡ n
unfolding decimal
digits_value-decimal n = digits_value-decimal_rounds (suc n) n (omega arith)

pub decimal_inj : (m n : ℕ) → decimal m ≡ decimal n → m ≡ n
decimal_inj m n e =
    omega (arith, digits_value-decimal m, digits_value-decimal n, ap (digits_value 0) e)

minus-ne-decimal : (n : ℕ) (s : Bytes) → decimal n ≡ b'-' ∷ s → ⊥
minus-ne-decimal n s e =
    let digits : All IsDigit (b'-' ∷ s) = rw e at (decimal-digits n) in omega arith

-- Two integers with the same text are one integer.
pub int_text_inj : (a b : ℤ) → int_text a ≡ int_text b → a ≡ b
unfolding int_text
int_text_inj (pos m) (pos n) e = ap pos (decimal_inj m n e)
int_text_inj (negsuc m) (negsuc n) e = ground (arith, decimal_inj (suc m) (suc n))
int_text_inj (pos m) (negsuc n) e = absurd (minus-ne-decimal m (decimal (suc n)) e)
int_text_inj (negsuc m) (pos n) e = absurd (minus-ne-decimal n (decimal (suc m)) (cc))
