-- ===== src/Core/Names/Words.antt =====
-- types.rs: the words for kinds and formats of secrets.
use hyperion_vault.Prelude.{
  ◌≡◌, refl, ◌∙◌, ◌↔◌, ap, some, Bytes, arith, bytes_eq, bytes_eq_iff, codes,
}
use hyperion_vault.Core.Names.{
  SecretKind, SecretFormat, manual, automatic, opaque, userpass, kind_text, parse_kind, format_text,
  parse_format,
}

kind_back : (k : SecretKind) → parse_kind (kind_text k) ≡ some k
unfolding parse_kind kind_text bytes_eq
kind_back manual = refl
kind_back automatic = refl

kind_there : (word : Bytes) (k : SecretKind) → parse_kind word ≡ some k → word ≡ kind_text k
unfolding parse_kind kind_text
kind_there word k h =
    ground (arith, bytes_eq_iff word (codes "manual"), bytes_eq_iff word (codes "automatic"))

format_back : (f : SecretFormat) → parse_format (format_text f) ≡ some f
unfolding parse_format format_text bytes_eq
format_back opaque = refl
format_back userpass = refl

format_there : (word : Bytes) (f : SecretFormat) → parse_format word ≡ some f → word ≡ format_text f
unfolding parse_format format_text
format_there word f h =
    ground (arith, bytes_eq_iff word (codes "opaque"), bytes_eq_iff word (codes "userpass"))

-- A word is read as a kind exactly when it is the text of that kind, and the same holds for formats.
parse_iff :
    (word : Bytes) (k : SecretKind) (f : SecretFormat)
    → ((parse_kind word ≡ some k) ↔ (word ≡ kind_text k))
      × ((parse_format word ≡ some f) ↔ (word ≡ format_text f))
parse_iff word k f = (
  (kind_there word k, λ e. ap parse_kind e ∙ kind_back k),
  (format_there word f, λ e. ap parse_format e ∙ format_back f),
)
