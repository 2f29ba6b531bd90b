-- ===== src/Core/Rbac/Grants.antt =====
-- Authorization of rbac.rs, against a description of what a rule grants.
use hyperion_vault.Prelude.{
  ℕ, ◌≡◌, refl, ◌∙◌, any_iff, Any, ◌↔◌, ◌⊎◌, inl, inr, List, [], ◌∷◌, ◌++◌, Bool, true, false, ◌&&◌,
  none, some, arith, Bytes, bytes_eq, bytes_eq_iff, any, codes, starts_with, starts_with-append,
  Option-cases, ==_iff,
}
use hyperion_vault.Core.Rbac.{Rule, strip_last, path_matches, action_matches, authorize, visible}

-- A pattern that ends in `*` covers every name with the text before the star in front; and every
-- pattern covers its own text.
pub data Covers (pattern name : Bytes) : Type 0 where
  glob :
      (prefix rest : Bytes)
      → pattern ≡ prefix ++ b'*' ∷ []
      → name ≡ prefix ++ rest
      → Covers pattern name
  exact : pattern ≡ name → Covers pattern name

pub data Grants (rule : Rule) (action name : Bytes) : Type 0 where
  grants : (rule.0 ≡ codes "*") ⊎ (rule.0 ≡ action) → Covers rule.1 name → Grants rule action name

strip_last-append : (x : ℕ) (p : Bytes) → strip_last x (p ++ x ∷ []) ≡ some p
unfolding strip_last
strip_last-append x [] = ground (arith, ==_iff x x)
strip_last-append x (c ∷ []) = ground (arith, ==_iff x x)
strip_last-append x (c ∷ d ∷ p) = rw (strip_last-append x (d ∷ p))

strip_last-some : (x : ℕ) (s p : Bytes) → strip_last x s ≡ some p → s ≡ p ++ x ∷ []
unfolding strip_last
strip_last-some x [] p h = cc
strip_last-some x (c ∷ []) p h = ground (arith, ==_iff c x)
strip_last-some x (c ∷ d ∷ s) p h = elim (Option-cases (strip_last x (d ∷ s))) [
  | inl e ↦ ground arith
  | inr (q, e) ↦ ground (arith, strip_last-some x (d ∷ s) q e)
]

starts_with_split : (s p : Bytes) → starts_with s p ≡ true → (rest : Bytes) × (s ≡ p ++ rest)
unfolding starts_with
starts_with_split s [] h = (s, refl)
starts_with_split [] (y ∷ p) h = cc
starts_with_split (x ∷ s) (y ∷ p) h =
    let (rest, e) = starts_with_split s p (ground arith) in (rest, ground (arith, ==_iff x y))

path_matches-some :
    (pattern name prefix : Bytes)
    → strip_last b'*' pattern ≡ some prefix
    → path_matches pattern name ≡ starts_with name prefix
unfolding path_matches
path_matches-some pattern name prefix e = rw (e, path_matches)

path_matches-none :
    (pattern name : Bytes)
    → strip_last b'*' pattern ≡ none
    → path_matches pattern name ≡ bytes_eq pattern name
unfolding path_matches
path_matches-none pattern name e = rw (e, path_matches)

path_matches-Covers :
    (pattern name : Bytes) → path_matches pattern name ≡ true → Covers pattern name
path_matches-Covers pattern name h = elim (Option-cases (strip_last b'*' pattern)) [
  | inl e ↦ exact ((bytes_eq_iff pattern name).0 (cc (path_matches-none pattern name e)))
  | inr (prefix, e) ↦
      let (rest, found) =
        starts_with_split name prefix (cc (path_matches-some pattern name prefix e)) in
      glob prefix rest (strip_last-some b'*' pattern prefix e) found
]

path_matches_self : (pattern : Bytes) → path_matches pattern pattern ≡ true
path_matches_self pattern = elim (Option-cases (strip_last b'*' pattern)) [
  | inl miss ↦ path_matches-none pattern pattern miss ∙ (bytes_eq_iff pattern pattern).1 refl
  | inr (prefix, hit) ↦
      path_matches-some pattern pattern prefix hit
      ∙ rw (strip_last-some b'*' pattern prefix hit) (starts_with-append prefix (b'*' ∷ []))
]

Covers-path_matches :
    (pattern name : Bytes) → Covers pattern name → path_matches pattern name ≡ true
Covers-path_matches pattern name (glob prefix rest p n) =
    path_matches-some pattern name prefix (rw p (strip_last-append b'*' prefix))
    ∙ rw n (starts_with-append prefix rest)
Covers-path_matches pattern name (exact e) = rw (← e) (path_matches_self pattern)

Grants-iff :
    (action name : Bytes) (rule : Rule)
    → ((action_matches rule.0 action && path_matches rule.1 name) ≡ true) ↔ Grants rule action name
unfolding action_matches
Grants-iff action name rule = (
  λ e. grants (action_part (ground arith)) (path_matches-Covers rule.1 name (ground arith)),
  λ g. elim g [
    | grants (inl a) c ↦
        ground (arith, bytes_eq_iff rule.0 (codes "*"), Covers-path_matches rule.1 name c)
    | grants (inr a) c ↦
        ground (arith, bytes_eq_iff rule.0 action, Covers-path_matches rule.1 name c)
  ],
)
  where
    action_part : action_matches rule.0 action ≡ true → (rule.0 ≡ codes "*") ⊎ (rule.0 ≡ action)
    action_part e = ground (arith, bytes_eq_iff rule.0 (codes "*"), bytes_eq_iff rule.0 action)

-- A request is authorized exactly when the actor is an administrator, or some rule of its role has
-- the action or the wildcard and a pattern that covers the name.
pub authorize_iff :
    (is_admin : Bool) (rules : List Rule) (action name : Bytes)
    → (authorize is_admin rules action name ≡ true)
      ↔ ((is_admin ≡ true) ⊎ Any (λ rule. Grants rule action name) rules)
unfolding authorize
authorize_iff true rules action name = (λ e. inl refl, λ h. refl)
authorize_iff false rules action name =
    (λ e. inr (granted.0 e), λ h. elim h [ inl e ↦ cc | inr a ↦ granted.1 a ])
  where
    granted :
        (any (λ rule. action_matches rule.0 action && path_matches rule.1 name) rules ≡ true)
        ↔ Any (λ rule. Grants rule action name) rules
    granted =
        any_iff (λ rule. Grants rule action name)
          (λ rule. action_matches rule.0 action && path_matches rule.1 name)
          (Grants-iff action name) rules

any_mono :
    (rules : List Rule) (action name : Bytes)
    → any (λ rule. action_matches rule.0 action && path_matches rule.1 name) rules ≡ true
    → any (λ rule. path_matches rule.1 name) rules ≡ true
any_mono [] action name h = cc
any_mono (rule ∷ rules) action name h = ground (arith, any_mono rules action name)

-- Whoever may act on a secret in any way can see it listed.
authorize→visible :
    (is_admin : Bool) (rules : List Rule) (action name : Bytes)
    → authorize is_admin rules action name ≡ true
    → visible is_admin rules name ≡ true
unfolding authorize visible
authorize→visible is_admin rules action name h = ground (arith, any_mono rules action name)
