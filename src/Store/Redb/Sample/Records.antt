-- ===== src/Store/Redb/Sample/Records.antt =====
-- The encodings of the stored records, by their fields.
use hyperion_vault.Prelude.{
  ℕ, zero, suc, ◌≡◌, refl, List, Bool, true, false, Option, Bytes, ℤ, pos, negsuc,
}
use hyperion_vault.Core.Names.{SecretKind, SecretFormat, manual, automatic, opaque, userpass}
use hyperion_vault.Store.Model.{
  SecretRecord, VersionRecord, RoleRecord, TokenRecord, LockoutRecord, AuditEntry, KmsRewrapState,
  RotationTarget, pg_replica,
}
use hyperion_vault.Store.Redb.Sample.Coder.{Coder, nat, both, via, option, items}

abbrev pub text : Coder Bytes
text = items nat

abbrev int_parts : ℤ → ℕ × ℕ
int_parts (pos n) = (0, n)
int_parts (negsuc n) = (1, n)

abbrev int_of : ℕ × ℕ → ℤ
int_of (zero, n) = pos n
int_of (suc s, n) = negsuc n

pub int_of-int_parts : (a : ℤ) → int_of (int_parts a) ≡ a
int_of-int_parts (pos n) = refl
int_of-int_parts (negsuc n) = refl

abbrev int : Coder ℤ
int = via (both nat nat) int_of int_parts int_of-int_parts

abbrev bit : Bool → ℕ
bit false = 0
bit true = 1

abbrev of_bit : ℕ → Bool
of_bit zero = false
of_bit (suc n) = true

pub of_bit-bit : (b : Bool) → of_bit (bit b) ≡ b
of_bit-bit true = refl
of_bit-bit false = refl

abbrev flag : Coder Bool
flag = via nat of_bit bit of_bit-bit

abbrev kind_bit : SecretKind → Bool
kind_bit manual = false
kind_bit automatic = true

abbrev kind_of : Bool → SecretKind
kind_of false = manual
kind_of true = automatic

pub kind_of-kind_bit : (k : SecretKind) → kind_of (kind_bit k) ≡ k
kind_of-kind_bit manual = refl
kind_of-kind_bit automatic = refl

abbrev kind : Coder SecretKind
kind = via flag kind_of kind_bit kind_of-kind_bit

abbrev format_bit : SecretFormat → Bool
format_bit opaque = false
format_bit userpass = true

abbrev format_of : Bool → SecretFormat
format_of false = opaque
format_of true = userpass

pub format_of-format_bit : (f : SecretFormat) → format_of (format_bit f) ≡ f
format_of-format_bit opaque = refl
format_of-format_bit userpass = refl

abbrev format : Coder SecretFormat
format = via flag format_of format_bit format_of-format_bit

abbrev target_parts : RotationTarget → List Bytes × (Bytes × (Option Bytes × Option Bytes))
target_parts (pg_replica pg) = (pg.hosts, (pg.database, (pg.role, pg.login_secret)))

abbrev target_of : List Bytes × (Bytes × (Option Bytes × Option Bytes)) → RotationTarget
target_of p =
    pg_replica (record { hosts = p.0; database = p.1.0; role = p.1.1.0; login_secret = p.1.1.1 })

pub target_of-target_parts : (t : RotationTarget) → target_of (target_parts t) ≡ t
target_of-target_parts (pg_replica pg) = refl

abbrev target : Coder RotationTarget
target =
    via (both (items text) (both text (both (option text) (option text)))) target_of target_parts
      target_of-target_parts

abbrev pub lockout : Coder LockoutRecord
lockout =
    via (both nat (both int (option int)))
      (λ p. record { failures = p.0; window_start = p.1.0; locked_until = p.1.1 })
      (λ l. (l.failures, (l.window_start, l.locked_until))) (λ l. refl)

abbrev pub rewrap : Coder KmsRewrapState
rewrap =
    via (both int (both int int))
      (λ p. record { last_completed_rotation_at = p.0; last_swept_at = p.1.0; updated_at = p.1.1 })
      (λ s. (s.last_completed_rotation_at, (s.last_swept_at, s.updated_at))) (λ s. refl)

abbrev pub token : Coder TokenRecord
token =
    via (both (both text (both (option text) text)) (both int (both (option int) (option int))))
      (λ p. record {
        name = p.0.0;
        role = p.0.1.0;
        fingerprint = p.0.1.1;
        created_at = p.1.0;
        last_used_at = p.1.1.0;
        revoked_at = p.1.1.1;
      })
      (λ t. ((t.name, (t.role, t.fingerprint)), (t.created_at, (t.last_used_at, t.revoked_at))))
      (λ t. refl)

abbrev pub role : Coder RoleRecord
role =
    via (both (both text (option text)) (both flag (both (items (both text text)) int)))
      (λ p. record {
        name = p.0.0;
        description = p.0.1;
        is_admin = p.1.0;
        permissions = p.1.1.0;
        created_at = p.1.1.1;
      })
      (λ o. ((o.name, o.description), (o.is_admin, (o.permissions, o.created_at)))) (λ o. refl)

abbrev pub audit : Coder AuditEntry
audit =
    via
      (both (both int (both (option text) (option text)))
        (both (both text (option text)) (both text nat)))
      (λ p. record {
        at = p.0.0;
        actor = p.0.1.0;
        client_ip = p.0.1.1;
        action = p.1.0.0;
        secret_name = p.1.0.1;
        outcome = p.1.1.0;
        node_id = p.1.1.1;
      })
      (λ e. ((e.at, (e.actor, e.client_ip)), ((e.action, e.secret_name), (e.outcome, e.node_id))))
      (λ e. refl)

abbrev pub version : Coder VersionRecord
version =
    via
      (both (both (both int text) (both text text))
        (both (both text text) (both int (both (option int) (option int)))))
      (λ p. record {
        version = p.0.0.0;
        kms_key_id = p.0.0.1;
        wrapped_dek = p.0.1.0;
        nonce = p.0.1.1;
        ciphertext = p.1.0.0;
        aad = p.1.0.1;
        created_at = p.1.1.0;
        expires_at = p.1.1.1.0;
        wrapped_rotation_at = p.1.1.1.1;
      })
      (λ v. (
        ((v.version, v.kms_key_id), (v.wrapped_dek, v.nonce)),
        ((v.ciphertext, v.aad), (v.created_at, (v.expires_at, v.wrapped_rotation_at))),
      ))
      (λ v. refl)

abbrev pub secret : Coder SecretRecord
secret =
    via
      (both (both (both text kind) (both format (option text))) (
        both (both (option int) (both int int))
          (both (both (option int) int) (both int (option target)))))
      (λ p. record {
        name = p.0.0.0;
        kind = p.0.0.1;
        format = p.0.1.0;
        description = p.0.1.1;
        rotation_interval_secs = p.1.0.0;
        grace_secs = p.1.0.1.0;
        current_version = p.1.0.1.1;
        next_rotation_at = p.1.1.0.0;
        created_at = p.1.1.0.1;
        updated_at = p.1.1.1.0;
        target = p.1.1.1.1;
      })
      (λ s. (
        ((s.name, s.kind), (s.format, s.description)),
        (
          (s.rotation_interval_secs, (s.grace_secs, s.current_version)),
          ((s.next_rotation_at, s.created_at), (s.updated_at, s.target)),
        ),
      ))
      (λ s. refl)
