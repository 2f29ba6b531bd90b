-- ===== src/Service/Sample.antt =====
-- A site for the examples: keys that are numbers in order, a cipher that leaves a text as it is.
use hyperion_vault.Prelude.{
  ℕ, ◌+◌, ◌≡◌, refl, sym, ap, [], ◌∷◌, true, Option, none, some, Bytes, codes, arith, pos,
}
use hyperion_vault.Core.Names.{automatic}
use hyperion_vault.Store.Redb.Sample.{sample}
use hyperion_vault.Store.Redb.Sample.Coder.{both, codec}
use hyperion_vault.Store.Redb.Sample.Records.{text}
use hyperion_vault.Store.Engine.{empty_db}
use hyperion_vault.Api.DekCache
use hyperion_vault.Api.Sample.{outside, settings}
use hyperion_vault.Service.Site.{UserPass, Externals, Site, Vault}
use hyperion_vault.Service.Sealing.{Lawful}
use hyperion_vault.Service.Payloads.{Readable}
use hyperion_vault.Service.Secrets.{CreateSecretRequest}

abbrev pub zeros : Bytes
zeros =
    0 ∷ 0 ∷ 0 ∷ 0 ∷ 0 ∷ 0 ∷ 0 ∷ 0 ∷ 0 ∷ 0 ∷ 0 ∷ 0 ∷ 0 ∷ 0 ∷ 0 ∷ 0 ∷ 0 ∷ 0 ∷ 0 ∷ 0 ∷ 0 ∷ 0 ∷ 0 ∷ 0
    ∷ []

abbrev userpass_of : Option (Bytes × Bytes) → Option UserPass
userpass_of none = none
userpass_of (some p) = some (record { username = p.0; password = p.1 })

abbrev pub plain : Externals
plain = record {
  World = ℕ;
  generate_data_key = λ name version w.
      (some (record { plaintext = w ∷ []; wrapped = w ∷ []; key_id = codes "k" }), w + 1);
  decrypt_data_key = λ wrapped key_id name version w. (some wrapped, w);
  reencrypt_data_key = λ wrapped key_id name version w. (some (wrapped, codes "k"), w);
  latest_rotation_at = λ w. (some (some (pos w)), w);
  generate_nonce = λ w. (zeros, w);
  generate_token = λ w. (w ∷ [], w + 1);
  encrypt = λ key nonce aad text. some text;
  decrypt = λ key nonce aad text. some text;
  encode_userpass = λ up. (both text text).put (up.username, up.password) [];
  decode_userpass = λ bytes. userpass_of ((codec (both text text)).decode bytes);
  is_utf8 = λ bytes. true;
  rfc3339 = λ t. [];
  try_rotate = λ host port database user password role new_password w. (some true, w);
}

pub plain-Lawful : Lawful plain
plain-Lawful = record {
  decrypt-encrypt = λ key nonce aad text ciphertext e. sym e;
  decrypt_data_key-generate_data_key = λ name version w later key dek e f. ground arith;
  length-generate_nonce = λ w. refl;
}

pub plain-Readable : Readable plain
plain-Readable = record {
  decode-encode_userpass = λ up.
      ap userpass_of ((codec (both text text)).decode-encode (up.username, up.password) _ refl);
  is_utf8-generate_token = λ w. refl;
}

abbrev pub site : Site
site = record {
  r = sample;
  externals = plain;
  outside = outside;
  settings = settings;
  target_hosts = [];
}

-- a node with empty tables and a cache that is on
abbrev pub vault : Vault site
vault = record { db = empty_db sample; dek_cache = DekCache.new 60; world = 5 }

abbrev pub request : CreateSecretRequest
request = record {
  name = codes "db/password";
  kind = automatic;
  value = none;
  username = some (codes "app");
  password = none;
  description = none;
  rotation_interval_secs = some (pos 60);
  grace_period_secs = some (pos 10);
  target = none;
}

-- nothing is found in a cache to which nothing was put
pub no_hit :
    (wrapped dek : Bytes) (tick : ℕ)
    → (DekCache.get (DekCache.new 60) wrapped tick).0 ≡ some dek
    → ⊥
unfolding DekCache.get DekCache.new DekCache.find
no_hit wrapped dek tick h = cc
