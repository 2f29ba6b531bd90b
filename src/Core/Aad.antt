-- ===== src/Core/Aad.antt =====
-- crates/hyperion-vault-core/src/types.rs: the associated data that binds a ciphertext to its place.
use hyperion_vault.Prelude.{
  ℕ, ◌≡◌, refl, ◌≢◌, [], ◌∷◌, ◌++◌, arith, Bytes, ℤ, pos, negsuc, All, All-append_right, All-map,
  suc,
}
use hyperion_vault.Core.Decimal.{IsDigit, decimal, decimal-digits, int_text, int_text_inj}

unfoldable pub aad_for : Bytes → ℤ → Bytes
aad_for name version = name ++ b':' ∷ int_text version

int_text-no_colon : (a : ℤ) → All (λ c. c ≢ b':') (int_text a)
unfolding int_text
int_text-no_colon (pos n) =
    All-map IsDigit (λ c. c ≢ b':') (decimal n) (λ c h. omega arith) (decimal-digits n)
int_text-no_colon (negsuc n) = (
  omega arith,
  All-map IsDigit (λ c. c ≢ b':') (decimal (suc n)) (λ c h. omega arith) (decimal-digits (suc n)),
)

-- The last separator of a text splits it in one way.
pub last_separator :
    (sep : ℕ) (a b s t : Bytes)
    → All (λ c. c ≢ sep) s
    → All (λ c. c ≢ sep) t
    → a ++ sep ∷ s ≡ b ++ sep ∷ t
    → (a ≡ b) × (s ≡ t)
last_separator sep [] [] s t hs ht e = (refl, cc)
last_separator sep [] (y ∷ b) s t hs ht e =
    let inside : s ≡ b ++ sep ∷ t = cc in
    absurd ((All-append_right (λ c. c ≢ sep) b (sep ∷ t) (rw inside at hs)).0 refl)
last_separator sep (x ∷ a) [] s t hs ht e =
    let inside : t ≡ a ++ sep ∷ s = cc in
    absurd ((All-append_right (λ c. c ≢ sep) a (sep ∷ s) (rw inside at ht)).0 refl)
last_separator sep (x ∷ a) (y ∷ b) s t hs ht e =
    let rest = last_separator sep a b s t hs ht (cc) in (cc, rest.1)

-- The associated data determines the secret's name and the version, whatever bytes the names hold:
-- no two places share it.
pub aad_for_inj : (n m : Bytes) (v w : ℤ) → aad_for n v ≡ aad_for m w → (n ≡ m) × (v ≡ w)
unfolding aad_for
aad_for_inj n m v w e =
    let parts =
      last_separator b':' n m (int_text v) (int_text w) (int_text-no_colon v) (int_text-no_colon w)
        e in
    (parts.0, int_text_inj v w parts.1)
