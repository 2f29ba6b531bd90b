-- ===== src/Service/Payloads.antt =====
-- service.rs: what is shown of a payload, and what its bytes are read as.
use hyperion_vault.Prelude.{
  ◌≡◌, inl, inr, Bool, true, ◌||◌, Option, none, some, Bytes, Bool-cases, is_some, arith, codes,
}
use hyperion_vault.Core.Names.{SecretKind, manual, automatic, opaque, userpass}
use hyperion_vault.Api.Error.{
  bad_request, username_required, password_required, value_required, ApiError, ApiResult,
  ApiResult-cases, done,
}
use hyperion_vault.Service.Site.{
  UserPass, Externals, Site, Vault, Op, ◌>>=◌, bind_done, give, refuse, checked,
}
use hyperion_vault.Service.Check.{validate_field, validate_value}
use hyperion_vault.Service.Seal.{decode_payload}
use hyperion_vault.Service.Secrets.{
  CreateSecretRequest, Payload, opaque_payload, userpass_payload, given_or_token, userpass_create,
  opaque_create, build_create_payload,
}

-- what is documented of JSON and of random tokens
pub record Readable (x : Externals) : Type 0 where
  pub decode-encode_userpass : (up : UserPass) → x.decode_userpass (x.encode_userpass up) ≡ some up
  pub is_utf8-generate_token : (w : x.World) → x.is_utf8 (x.generate_token w).0 ≡ true

-- a value that is given is a string
abbrev pub is_text : Externals → Option Bytes → Bool
is_text x none = true
is_text x (some value) = x.is_utf8 value

module _ (s : Site) where
  open s use {externals}

  is_utf8-given_or_token :
      Readable externals
      → (kind : SecretKind) (complaint : ApiError) (check : Bytes → ApiResult (Unit {0}))
        (given : Option Bytes) (vault next : Vault s) (value : Bytes)
      → is_text externals given ≡ true
      → given_or_token s kind complaint check given vault ≡ (done value, next)
      → externals.is_utf8 value ≡ true
  is_utf8-given_or_token readable kind complaint check (some given) vault next value text h =
      elim (ApiResult-cases (check given)) [
        | inr (e, failed) ↦ absurd (ground arith)
        | inl (_, passed) ↦ let same : given ≡ value = ground arith in rw⁻¹ same text
      ]
  is_utf8-given_or_token readable manual complaint check none vault next value text h =
      absurd (ground arith)
  is_utf8-given_or_token readable automatic complaint check none vault next value text h =
      let same : (externals.generate_token vault.world).0 ≡ value = ground arith in
      rw⁻¹ same (readable.is_utf8-generate_token vault.world)

  decode_payload-userpass :
      Readable externals
      → (up : UserPass)
      → decode_payload s userpass (userpass_payload s up).bytes ≡ done (userpass_payload s up).shown
  unfolding decode_payload
  decode_payload-userpass readable up = ground (arith, readable.decode-encode_userpass up)

  decode_payload-opaque :
      (value : Bytes)
      → externals.is_utf8 value ≡ true
      → decode_payload s opaque value ≡ done (some value, (none, none))
  unfolding decode_payload
  decode_payload-opaque value utf8 = ground arith

  userpass_create-payload :
      (req : CreateSecretRequest) (vault next : Vault s) (payload : Payload)
      → userpass_create s req vault ≡ (done payload, next)
      → (up : UserPass) × (payload ≡ userpass_payload s up)
  userpass_create-payload req vault next payload h =
      let with_password : Bytes → Bytes → Op s Payload = (λ username password.
        give s (userpass_payload s (record { username = username; password = password }))) in
      let password_of : Op s Bytes =
        given_or_token s req.kind (bad_request password_required)
          (validate_field (codes "password")) req.password in
      let after_name : Bytes → Op s Payload =
        (λ username. password_of >>= with_password username) in
      let after_username : Bytes → Op s Payload = (λ username.
        checked s (validate_field (codes "username") username) >>= (λ _. after_name username)) in
      let username_of : Op s Bytes = elim req.username [
        | none ↦ refuse s (bad_request username_required)
        | some username ↦ give s username
      ] in
      bind_done username_of after_username vault payload next h (λ username v1 _ h1.
        bind_done (checked s (validate_field (codes "username") username))
          (λ _. after_name username) v1 payload next h1
          (λ _ v2 _ h2.
            bind_done password_of (with_password username) v2 payload next h2 (λ password v3 _ h3.
              (record { username = username; password = password }, ground arith))))

  opaque_create-payload :
      Readable externals
      → (req : CreateSecretRequest) (vault next : Vault s) (payload : Payload)
      → is_text externals req.value ≡ true
      → opaque_create s req vault ≡ (done payload, next)
      → (value : Bytes) × ((payload ≡ opaque_payload s value) × (externals.is_utf8 value ≡ true))
  opaque_create-payload readable req vault next payload text h =
      bind_done (given_or_token s req.kind (bad_request value_required) validate_value req.value)
        (λ value. give s (opaque_payload s value)) vault payload next h
        (λ value v1 given h1. (
          value,
          (
            ground arith,
            is_utf8-given_or_token readable req.kind (bad_request value_required) validate_value
                req.value vault v1 value text given,
          ),
        ))

  -- what is shown of a payload is what its bytes are read as
  pub decode_payload-build_create_payload :
      Readable externals
      → (req : CreateSecretRequest) (vault next : Vault s) (payload : Payload)
      → is_text externals req.value ≡ true
      → build_create_payload s req vault ≡ (done payload, next)
      → decode_payload s payload.format payload.bytes ≡ done payload.shown
  unfolding build_create_payload decode_payload
  decode_payload-build_create_payload readable req vault next payload text h =
      elim (Bool-cases (is_some req.username || is_some req.password)) [
        | inl wants ↦
            let made : userpass_create s req vault ≡ (done payload, next) = ground arith in
            let (up, same) = userpass_create-payload req vault next payload made in
            rw same (decode_payload-userpass readable up)
        | inr plain ↦
            let made : opaque_create s req vault ≡ (done payload, next) = ground arith in
            let (value, (same, utf8)) =
              opaque_create-payload readable req vault next payload text made in
            rw same (decode_payload-opaque value utf8)
      ]
