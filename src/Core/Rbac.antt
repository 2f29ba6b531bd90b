-- ===== src/Core/Rbac.antt =====
-- crates/hyperion-vault-core/src/rbac.rs: actions, path patterns and authorization.
pub mod Grants
use hyperion_vault.Prelude.{
  ℕ, List, [], ◌∷◌, Bool, true, false, ◌&&◌, ◌||◌, Option, none, some, Bytes, ◌==◌, bytes_eq,
  if◌then◌else◌, any, codes, starts_with,
}

unfoldable pub is_valid_action : Bytes → Bool
is_valid_action action =
    bytes_eq action (codes "*")
    || any (bytes_eq action)
        (codes "create" ∷ codes "update" ∷ codes "delete" ∷ codes "rotate" ∷ [])

abbrev keep_first : ℕ → Option Bytes → Option Bytes
keep_first c none = none
keep_first c (some s) = some (c ∷ s)

-- `strip_suffix` of one byte
unfoldable pub strip_last : ℕ → Bytes → Option Bytes
strip_last x [] = none
strip_last x (c ∷ []) = if c == x then some [] else none
strip_last x (c ∷ d ∷ s) = keep_first c (strip_last x (d ∷ s))

unfoldable pub path_matches : Bytes → Bytes → Bool
path_matches pattern name = elim (strip_last b'*' pattern) [
  | some prefix ↦ starts_with name prefix
  | none ↦ bytes_eq pattern name
]

unfoldable pub action_matches : Bytes → Bytes → Bool
action_matches rule_action action = bytes_eq rule_action (codes "*") || bytes_eq rule_action action

-- A rule is an action and a path pattern.
abbrev pub Rule : Type 0
Rule = Bytes × Bytes

unfoldable pub authorize : Bool → List Rule → Bytes → Bytes → Bool
authorize is_admin rules action name =
    is_admin || any (λ rule. action_matches rule.0 action && path_matches rule.1 name) rules

unfoldable pub visible : Bool → List Rule → Bytes → Bool
visible is_admin rules name = is_admin || any (λ rule. path_matches rule.1 name) rules
