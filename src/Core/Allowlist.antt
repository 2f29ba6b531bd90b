-- ===== src/Core/Allowlist.antt =====
-- crates/hyperion-vault-core/src/ip_allowlist.rs: networks that may read. The parsers of an address
-- and of a network are the standard library's and those of the crate ipnet.
use hyperion_vault.Prelude.{
  ℕ, ◌≡◌, refl, ◌↔◌, ◌⊎◌, List, [], ◌∷◌, Bool, true, false, Option, none, some, arith, Bytes, ◌==◌,
  if◌then◌else◌, any, Any, length, inl, inr, Option-cases, Bool-cases,
}
use hyperion_vault.Core.Names.{split}

pub record Ipnet : Type 1 where
  pub Net : Type 0
  pub parse_net : Bytes → Option Net
  pub parse_addr : Bytes → Option ℕ
  -- `Ipv4Net::new(addr, 32)`
  pub host : ℕ → Net
  pub contains : Net → ℕ → Bool
  -- `str::trim`
  pub trim : Bytes → Bytes
  -- a network of 32 bits has one address
  pub contains-host : (a ip : ℕ) → contains (host a) ip ≡ (a == ip)

pub data AllowlistResult {ℓ} (A : Type ℓ) : Type ℓ where
  parsed : A → AllowlistResult A
  invalid_allowlist : Bytes → AllowlistResult A

AllowlistResult-cases :
    {A : Type 0} (res : AllowlistResult A)
    → ((a : A) × (res ≡ parsed a)) ⊎ ((bad : Bytes) × (res ≡ invalid_allowlist bad))
AllowlistResult-cases (parsed a) = inl (a, refl)
AllowlistResult-cases (invalid_allowlist bad) = inr (bad, refl)

module _ (n : Ipnet) where
  abbrev pub has_slash : Bytes → Bool
  has_slash token = any (λ c. c == b'/') token

  abbrev pub host_of : Option ℕ → Option n.Net
  host_of none = none
  host_of (some a) = some (n.host a)

  unfoldable pub parse_token : Bytes → Option n.Net
  parse_token token = if has_slash token then n.parse_net token else host_of (n.parse_addr token)

  abbrev pub onto :
      Option n.Net → Bytes → AllowlistResult (List n.Net) → AllowlistResult (List n.Net)
  onto none token rest = invalid_allowlist token
  onto (some net) token (parsed nets) = parsed (net ∷ nets)
  onto (some net) token (invalid_allowlist bad) = invalid_allowlist bad

  unfoldable pub parse_tokens : List Bytes → AllowlistResult (List n.Net)
  unfolding parse_token
  parse_tokens [] = parsed []
  parse_tokens (raw ∷ raws) =
      let rest = parse_tokens raws in
      if length (n.trim raw) == 0 then rest else onto (parse_token (n.trim raw)) (n.trim raw) rest

  unfoldable pub parse : Bytes → AllowlistResult (List n.Net)
  unfolding parse_tokens
  parse spec = parse_tokens (split b',' spec)

  unfoldable pub allows : List n.Net → ℕ → Bool
  allows nets ip = any (λ net. n.contains net ip) nets

  -- an entry of the list that is not blank and covers the address
  abbrev pub Covering : ℕ → Bytes → Type 0
  Covering ip raw =
      (net : n.Net) × ((length (n.trim raw) == 0) ≡ false)
      × (parse_token (n.trim raw) ≡ some net)
      × (n.contains net ip ≡ true)

  module _ (ip : ℕ) where
    allows→Covering :
        (raws : List Bytes) (nets : List n.Net)
        → parse_tokens raws ≡ parsed nets
        → allows nets ip ≡ true
        → Any (Covering ip) raws
    unfolding parse_tokens allows
    allows→Covering [] nets h e = absurd (ground arith)
    allows→Covering (raw ∷ raws) nets h e = elim (Bool-cases (length (n.trim raw) == 0)) [
      | inl blank ↦ inr (allows→Covering raws nets (ground arith) e)
      | inr full ↦ elim (Option-cases (parse_token (n.trim raw))) [
        | inl bad ↦ absurd (ground arith)
        | inr (net, p) ↦ elim (AllowlistResult-cases (parse_tokens raws)) [
          | inr (bad, q) ↦ absurd (ground arith)
          | inl (rest, q) ↦ elim (Bool-cases (n.contains net ip)) [
            | inl hit ↦ inl (net, full, p, hit)
            | inr miss ↦ inr (allows→Covering raws rest q (ground arith))
          ]
        ]
      ]
    ]

    Covering→allows :
        (raws : List Bytes) (nets : List n.Net)
        → parse_tokens raws ≡ parsed nets
        → Any (Covering ip) raws
        → allows nets ip ≡ true
    unfolding parse_tokens allows
    Covering→allows [] nets h a = absurd a
    Covering→allows (raw ∷ raws) nets h (inl (net, full, p, hit)) =
        elim (AllowlistResult-cases (parse_tokens raws)) [
          | inr (bad, q) ↦ absurd (ground arith)
          | inl (rest, q) ↦ ground arith
        ]
    Covering→allows (raw ∷ raws) nets h (inr later) = elim (Bool-cases (length (n.trim raw) == 0)) [
      | inl blank ↦ Covering→allows raws nets (ground arith) later
      | inr full ↦ elim (AllowlistResult-cases (parse_tokens raws)) [
        | inr (bad, q) ↦ absurd (ground arith)
        | inl (rest, q) ↦ let hit = Covering→allows raws rest q later in ground arith
      ]
    ]

    -- The list that a text is parsed to allows an address exactly when some entry of the text, between
    -- commas and not blank, is a network or an address that covers it.
    pub allows-parse_iff :
        (spec : Bytes) (nets : List n.Net)
        → parse spec ≡ parsed nets
        → (allows nets ip ≡ true) ↔ Any (Covering ip) (split b',' spec)
    unfolding parse
    allows-parse_iff spec nets h =
        (allows→Covering (split b',' spec) nets h, Covering→allows (split b',' spec) nets h)
