-- ===== src/Service/Tests.antt =====
-- Runs of the service on the sample site.
use hyperion_vault.Prelude.{
  ℕ, ◌≡◌, refl, List, [], ◌∷◌, Bool, true, false, Option, none, some, Bytes, ℤ, pos, codes, arith,
  bytes_eq, ltb, ◌+◌, ◌⊎◌, if◌then◌else◌,
}
use hyperion_vault.Store.Redb.Sample.{sample}
use hyperion_vault.Store.Model.{KmsRewrapState, SecretRecord, VersionRecord, ok}
use hyperion_vault.Store.Engine
use hyperion_vault.Core.Aad.{aad_for}
use hyperion_vault.Api.Error.{v4, ApiResult, broken, done, refused}
use hyperion_vault.Api.DekCache
use hyperion_vault.Service.Site.{Vault}
use hyperion_vault.Service.Seal.{seal_version, open_version}
use hyperion_vault.Service.Sealing.{open_version-seal_version, open_version-other}
use hyperion_vault.Service.Secrets.{SecretValue, userpass_payload}
use hyperion_vault.Service.Handlers.{new_secret, value_of, create_secret, get_secret}
use hyperion_vault.Service.Created.{get_secret-create_secret}
use hyperion_vault.Service.Rewrap.{persist_completed, tick}
use hyperion_vault.Service.Watermark.{CleanPass, tick-CleanPass}
use hyperion_vault.Service.Retry.{Ran, retrying, StoppedAfter, retrying-stops}
use hyperion_vault.Service.Sample.{
  zeros, plain, plain-Lawful, plain-Readable, site, vault, request, no_hit,
}

abbrev name : Bytes
name = codes "db/password"

abbrev run : ApiResult VersionRecord × Vault site
run = seal_version site (pos 100) name (pos 1) (codes "secret") vault

abbrev row_of : ApiResult VersionRecord → VersionRecord
row_of (done row) = row
row_of (refused e) = record {
  version = pos 0;
  kms_key_id = [];
  wrapped_dek = [];
  nonce = [];
  ciphertext = [];
  aad = [];
  created_at = pos 0;
  expires_at = none;
  wrapped_rotation_at = none;
}

open_version-seal_version_example :
    ((open_version site 7 name (pos 1) (row_of run.0) vault).0 ≡ done (codes "secret"))
    × ((open_version site 7 name (pos 1) (row_of run.0) vault).1.db ≡ vault.db)
unfolding seal_version Engine.kms_rewrap_state sample Engine.empty_db
open_version-seal_version_example =
    open_version-seal_version site plain-Lawful (pos 100) 7 name (pos 1) (codes "secret") vault
      run.1 vault (row_of run.0) refl (λ dek h. absurd (no_hit _ dek 7 h)) refl

open_version-other_example :
    open_version site 7 name (pos 2) (row_of run.0) vault ≡ (refused broken, vault)
unfolding seal_version Engine.kms_rewrap_state sample Engine.empty_db
open_version-other_example =
    open_version-other site (pos 100) 7 name name (pos 1) (pos 2) (codes "secret") vault run.1 vault
      (row_of run.0) refl (λ same. absurd (ground arith))

abbrev created : ApiResult SecretValue × Vault site
created = create_secret site (pos 100) (codes "admin") request vault

abbrev secret_row : SecretRecord
secret_row =
    new_secret (pos 100) request (pos 10)
      (userpass_payload site (record { username = codes "app"; password = 5 ∷ [] }))

abbrev sealed_row : VersionRecord
sealed_row = record {
  version = pos 1;
  kms_key_id = codes "k";
  wrapped_dek = 6 ∷ [];
  nonce = zeros;
  ciphertext = plain.encode_userpass (record { username = codes "app"; password = 5 ∷ [] });
  aad = aad_for name (pos 1);
  created_at = pos 100;
  expires_at = none;
  wrapped_rotation_at = some (pos 0);
}

abbrev shown_value : SecretValue
shown_value =
    value_of site (pos 100) secret_row (pos 1) (pos 100) (none, (some (codes "app"), some (5 ∷ [])))

created_is : created ≡ (done shown_value, created.1)
unfolding create_secret hyperion_vault.Core.Names.is_valid_secret_name
    hyperion_vault.Core.Names.name_char hyperion_vault.Core.Names.is_normalized_secret_name
    hyperion_vault.Prelude.starts_with hyperion_vault.Core.Names.ends_with_byte
    hyperion_vault.Core.Names.split hyperion_vault.Core.Names.clean_segment bytes_eq
    Engine.kms_rewrap_state sample Engine.empty_db Engine.apply
    hyperion_vault.Store.Apply.apply_command hyperion_vault.Store.Apply.Secrets.create
    hyperion_vault.Core.Names.is_valid_secret_version
created_is = refl

created_cache : created.1.dek_cache ≡ DekCache.new 60
unfolding create_secret hyperion_vault.Core.Names.is_valid_secret_name
    hyperion_vault.Core.Names.name_char hyperion_vault.Core.Names.is_normalized_secret_name
    hyperion_vault.Prelude.starts_with hyperion_vault.Core.Names.ends_with_byte
    hyperion_vault.Core.Names.split hyperion_vault.Core.Names.clean_segment bytes_eq
    Engine.kms_rewrap_state sample Engine.empty_db Engine.apply
    hyperion_vault.Store.Apply.apply_command hyperion_vault.Store.Apply.Secrets.create
    hyperion_vault.Core.Names.is_valid_secret_version
created_cache = refl

created_reads : Engine.current_version sample created.1.db name ≡ ok (some (secret_row, sealed_row))
unfolding create_secret hyperion_vault.Core.Names.is_valid_secret_name
    hyperion_vault.Core.Names.name_char hyperion_vault.Core.Names.is_normalized_secret_name
    hyperion_vault.Prelude.starts_with hyperion_vault.Core.Names.ends_with_byte
    hyperion_vault.Core.Names.split hyperion_vault.Core.Names.clean_segment bytes_eq
    Engine.kms_rewrap_state sample Engine.empty_db Engine.apply
    hyperion_vault.Store.Apply.apply_command hyperion_vault.Store.Apply.Secrets.create
    hyperion_vault.Core.Names.is_valid_secret_version Engine.current_version
    hyperion_vault.Store.Apply.Upkeep.append_audit hyperion_vault.Store.Keys.version_key
    hyperion_vault.Store.Keys.version_field aad_for hyperion_vault.Core.Decimal.int_text
    hyperion_vault.Core.Decimal.decimal hyperion_vault.Prelude.◌+ℤ◌
created_reads = refl

get_secret-create_secret_example :
    (get_secret site (pos 200) 7 name (v4 9) created.1).0 ≡ done shown_value
get_secret-create_secret_example =
    get_secret-create_secret site plain-Lawful plain-Readable (pos 100) (pos 200) 7 (codes "admin")
      request (v4 9) vault created.1 shown_value secret_row sealed_row refl created_is created_reads
      (λ dek h. absurd (no_hit (6 ∷ []) dek 7 (rw created_cache at h))) refl

-- a client that fails twice and then answers with the number of the call
abbrev flaky : ℕ → Option ℕ × ℕ
flaky w = (if ltb w 2 then none else some w, w + 1)

retrying-stops_example :
    (ran : Ran flaky) × ((failures : ℕ) × ((retrying flaky 5 0 ≡ some ran)
        × StoppedAfter flaky 5 0 0 ran failures))
retrying-stops_example = retrying-stops flaky 5 0

-- a node on which the first rotation is recorded
abbrev recorded : Vault site
recorded = (persist_completed site (pos 100) (pos 1) vault).1

abbrev record_one : KmsRewrapState
record_one = record {
  last_completed_rotation_at = pos 1;
  last_swept_at = pos 100;
  updated_at = pos 100;
}

tick-CleanPass_example :
    ((tick site (pos 200) true (false, recorded)).1.1.db.kms_rewrap ≡ recorded.db.kms_rewrap)
    ⊎ CleanPass site
        (pos 200)
        false
        recorded
        record_one
        (tick site (pos 200) true (false, recorded)).1.1
unfolding Engine.kms_rewrap_state sample persist_completed Engine.apply
    hyperion_vault.Store.Apply.apply_command hyperion_vault.Store.Apply.Upkeep.set_kms_rewrap_state
    Engine.empty_db bytes_eq
tick-CleanPass_example = tick-CleanPass site (pos 200) true false recorded record_one refl
