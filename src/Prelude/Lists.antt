-- ===== src/Prelude/Lists.antt =====
-- Lists over the native numbers, with Boolean tests.
use Prim.Native.Nat.{ℕ, suc, ◌+◌}
use mathlib.Core.Bool.{Bool, true, false, ◌&&◌, ◌||◌}
use mathlib.Core.List.{List, [], ◌∷◌, ◌++◌}
use mathlib.Core.Path.{◌≡◌}
use mathlib.Core.Logic.{◌⊎◌, ◌↔◌, inl, inr}
use native.Mathlib.Omega.{arith}
use hyperion_vault.Prelude.Tests.{Bool-cases, if◌then◌else◌}

module _ {ℓ} {A : Type ℓ} where
  abbrev pub length : List A → ℕ
  length [] = 0
  length (x ∷ xs) = suc (length xs)

  pub length-append : (xs ys : List A) → length (xs ++ ys) ≡ length xs + length ys
  length-append [] ys = omega arith
  length-append (x ∷ xs) ys = omega (arith, length-append xs ys)

  -- `iter().all(test)` and `iter().any(test)`
  abbrev pub all : (A → Bool) → List A → Bool
  all test [] = true
  all test (x ∷ xs) = test x && all test xs

  abbrev pub any : (A → Bool) → List A → Bool
  any test [] = false
  any test (x ∷ xs) = test x || any test xs

  -- the items that pass a test, in order
  abbrev pub select : (A → Bool) → List A → List A
  select test [] = []
  select test (x ∷ xs) = let rest = select test xs in if test x then x ∷ rest else rest

  abbrev pub All {κ} : (A → Type κ) → List A → Type κ
  All P [] = Unit
  All P (x ∷ xs) = P x × All P xs

  pub All-append {κ} : (P : A → Type κ) (xs ys : List A) → All P xs → All P ys → All P (xs ++ ys)
  All-append P [] ys hx hy = hy
  All-append P (x ∷ xs) ys hx hy = (hx.0, All-append P xs ys hx.1 hy)

  -- the part of an `All` over what follows a prefix
  pub All-append_right {κ} : (P : A → Type κ) (xs ys : List A) → All P (xs ++ ys) → All P ys
  All-append_right P [] ys h = h
  All-append_right P (x ∷ xs) ys h = All-append_right P xs ys h.1

  pub All-map {κ μ} :
      (P : A → Type κ) (Q : A → Type μ) (xs : List A) → ((x : A) → P x → Q x) → All P xs → All Q xs
  All-map P Q [] f h = tt
  All-map P Q (x ∷ xs) f h = (f x h.0, All-map P Q xs f h.1)

  -- some item has a property
  abbrev pub Any : (A → Type 0) → List A → Type 0
  Any P [] = ⊥
  Any P (x ∷ xs) = P x ⊎ Any P xs

  module _ (P : A → Type 0) (test : A → Bool) (d : (x : A) → (test x ≡ true) ↔ P x) where
    any→Any : (xs : List A) → any test xs ≡ true → Any P xs
    any→Any [] e = cc
    any→Any (x ∷ xs) e = elim (Bool-cases (test x)) [
      | inl hit ↦ inl ((d x).0 hit)
      | inr miss ↦ inr (any→Any xs (ground arith))
    ]

    Any→any : (xs : List A) → Any P xs → any test xs ≡ true
    Any→any [] h = absurd h
    Any→any (x ∷ xs) (inl p) = rw ((d x).1 p)
    Any→any (x ∷ xs) (inr h) = ground (arith, Any→any xs h)

    -- `any` passes exactly when some item has the property that the test decides.
    pub any_iff : (xs : List A) → (any test xs ≡ true) ↔ Any P xs
    any_iff xs = (any→Any xs, Any→any xs)

  -- What holds of all items holds of those selected.
  pub select-All {κ} :
      (test : A → Bool) (P : A → Type κ) (xs : List A) → All P xs → All P (select test xs)
  select-All test P [] h = tt
  select-All test P (x ∷ xs) h = elim (Bool-cases (test x)) [
    | inl kept ↦ rw kept (h.0, select-All test P xs h.1)
    | inr gone ↦ rw gone (select-All test P xs h.1)
  ]

  pub select-passes : (test : A → Bool) (xs : List A) → All (λ x. test x ≡ true) (select test xs)
  select-passes test [] = tt
  select-passes test (x ∷ xs) = elim (Bool-cases (test x)) [
    | inl kept ↦ rw kept (kept, select-passes test xs)
    | inr gone ↦ rw gone (select-passes test xs)
  ]
