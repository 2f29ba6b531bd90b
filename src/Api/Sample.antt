-- ===== src/Api/Sample.antt =====
-- Addresses, fingerprints and settings for the examples.
use hyperion_vault.Prelude.{
  ◌+◌, ◌-◌, ◌≡◌, ◌≢◌, ap, [], ◌∷◌, false, Option, none, some, Bytes, All, arith, pos,
}
use hyperion_vault.Api.Error.{IpAddr, v4, v6, Outside, Settings}

-- addresses as texts of one or two bytes, and a token as its own fingerprint
abbrev text_of : IpAddr → Bytes
text_of (v4 n) = (n + 200) ∷ []
text_of (v6 n) = 0 ∷ (n + 200) ∷ []

abbrev ip_of : Bytes → Option IpAddr
ip_of [] = none
ip_of (c ∷ []) = some (v4 (c - 200))
ip_of (z ∷ c ∷ s) = some (v6 (c - 200))

pub ip_of-text_of : (ip : IpAddr) → ip_of (text_of ip) ≡ some ip
ip_of-text_of (v4 n) = let same : n + 200 - 200 ≡ n = omega arith in ap (λ m. some (v4 m)) same
ip_of-text_of (v6 n) = let same : n + 200 - 200 ≡ n = omega arith in ap (λ m. some (v6 m)) same

pub text_of-no_v : (ip : IpAddr) → All (λ c. c ≢ b'v') (text_of ip)
text_of-no_v (v4 n) = (omega arith, tt)
text_of-no_v (v6 n) = (omega arith, (omega arith, tt))

abbrev pub outside : Outside
outside = record {
  ip_text = text_of;
  parse_ip = ip_of;
  fingerprint = λ token. token;
  parse_ip-ip_text = ip_of-text_of;
  ip_text-no_v = text_of-no_v;
}

abbrev pub settings : Settings
settings = record {
  node_id = 1;
  auth_max_failures = 3;
  auth_lockout_secs = pos 60;
  auth_window_secs = pos 30;
  token_touch_secs = pos 10;
  trust_proxy = false;
}
