-- ===== src/Store/Redb/Sample/Coder.antt =====
-- Encodings of values in front of a rest, and what is put decodes again.
use hyperion_vault.Prelude.{
  ℕ, zero, suc, ◌≡◌, refl, List, [], ◌∷◌, Option, none, some, Bytes, length,
}
use hyperion_vault.Store.Redb.{Codec}

pub record Coder (A : Type 0) : Type 0 where
  pub put : A → Bytes → Bytes
  pub take : Bytes → Option (A × Bytes)
  pub take-put : (a : A) (rest : Bytes) → take (put a rest) ≡ some (a, rest)

abbrev pub and_then {ℓ} : {A B : Type ℓ} → Option A → (A → Option B) → Option B
and_then none f = none
and_then (some a) f = f a

abbrev take_nat : Bytes → Option (ℕ × Bytes)
take_nat [] = none
take_nat (n ∷ rest) = some (n, rest)

abbrev pub nat : Coder ℕ
nat = record { put = λ n rest. n ∷ rest; take = take_nat; take-put = λ n rest. refl }

abbrev pub both : {A B : Type 0} → Coder A → Coder B → Coder (A × B)
both a b = record {
  put = λ p rest. a.put p.0 (b.put p.1 rest);
  take = λ s. and_then (a.take s) (λ x. and_then (b.take x.1) (λ y. some ((x.0, y.0), y.1)));
  take-put = λ p rest. rw (a.take-put p.0 (b.put p.1 rest), b.take-put p.1 rest) refl;
}

abbrev pub via :
    {A B : Type 0} → Coder B → (f : B → A) (g : A → B) → ((a : A) → f (g a) ≡ a) → Coder A
via b f g e = record {
  put = λ a rest. b.put (g a) rest;
  take = λ s. and_then (b.take s) (λ x. some (f x.0, x.1));
  take-put = λ a rest. rw (b.take-put (g a) rest, e a) refl;
}

abbrev take_option : {A : Type 0} → Coder A → Bytes → Option (Option A × Bytes)
take_option a [] = none
take_option a (zero ∷ rest) = some (none, rest)
take_option a (suc n ∷ rest) = and_then (a.take rest) (λ x. some (some x.0, x.1))

abbrev put_option : {A : Type 0} → Coder A → Option A → Bytes → Bytes
put_option a none rest = 0 ∷ rest
put_option a (some x) rest = 1 ∷ a.put x rest

pub take-put_option :
    {A : Type 0} (a : Coder A) (o : Option A) (rest : Bytes)
    → take_option a (put_option a o rest) ≡ some (o, rest)
take-put_option a none rest = refl
take-put_option a (some x) rest = rw (a.take-put x rest) refl

abbrev pub option : {A : Type 0} → Coder A → Coder (Option A)
option a = record { put = put_option a; take = take_option a; take-put = take-put_option a }

abbrev put_items : {A : Type 0} → Coder A → List A → Bytes → Bytes
put_items a [] rest = rest
put_items a (x ∷ xs) rest = a.put x (put_items a xs rest)

abbrev take_items : {A : Type 0} → Coder A → ℕ → Bytes → Option (List A × Bytes)
take_items a zero s = some ([], s)
take_items a (suc n) s =
    and_then (a.take s) (λ x. and_then (take_items a n x.1) (λ y. some (x.0 ∷ y.0, y.1)))

pub take-put_items :
    {A : Type 0} (a : Coder A) (xs : List A) (rest : Bytes)
    → take_items a (length xs) (put_items a xs rest) ≡ some (xs, rest)
take-put_items a [] rest = refl
take-put_items a (x ∷ xs) rest =
    rw (a.take-put x (put_items a xs rest), take-put_items a xs rest) refl

abbrev put_list : {A : Type 0} → Coder A → List A → Bytes → Bytes
put_list a xs rest = length xs ∷ put_items a xs rest

abbrev take_list : {A : Type 0} → Coder A → Bytes → Option (List A × Bytes)
take_list a [] = none
take_list a (n ∷ s) = take_items a n s

abbrev pub items : {A : Type 0} → Coder A → Coder (List A)
items a = record { put = put_list a; take = take_list a; take-put = take-put_items a }

abbrev pub whole : {A : Type 0} → Option (A × Bytes) → Option A
whole none = none
whole (some (a, rest)) = some a

pub decode-put :
    {A : Type 0} (a : Coder A) (x : A) (row : Bytes)
    → some (a.put x []) ≡ some row
    → whole (a.take row) ≡ some x
decode-put a x row e = let same : a.put x [] ≡ row = cc in rw (← same, a.take-put x []) refl

abbrev pub codec : {A : Type 0} → Coder A → Codec A
codec a = record {
  encode = λ x. some (a.put x []);
  decode = λ row. whole (a.take row);
  decode-encode = decode-put a;
}
