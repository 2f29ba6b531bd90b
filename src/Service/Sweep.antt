-- ===== src/Service/Sweep.antt =====
-- rewrap.rs: a pass of the re-wrapping in which every attempt succeeds.
use hyperion_vault.Prelude.{
  ◌≡◌, refl, inl, inr, List, [], ◌∷◌, Bool, true, false, none, some, Bytes, ℤ, leb_ℤ, not, ◌≤◌,
  arith, Bool-cases,
}
use hyperion_vault.Store.Model.{SecretRecord, VersionRecord, ok}
use hyperion_vault.Store.Engine
use hyperion_vault.Store.Db.{StoreResult-cases}
use hyperion_vault.Api.Error.{ApiResult-cases, done}
use hyperion_vault.Service.Site.{Site, Vault}
use hyperion_vault.Service.Rewrap.{
  RewrapSummary, nothing_scanned, needs_rewrap, counted, scanned_one, rewrap_one, rewrap_versions,
  rewrap_secrets, run_pass,
}

module _ (s : Site) (now : ℤ) where
  -- a version whose key was wrapped for the rotation or a later one
  abbrev pub up_to_date : VersionRecord → ℤ → Bool
  up_to_date version target = elim version.wrapped_rotation_at [
    | none ↦ false
    | some current ↦ leb_ℤ target current
  ]

  -- a run over the versions of a secret that wraps the key of each outdated one, with success
  pub data WrapsAll (name : Bytes) (target : ℤ)
      : List VersionRecord → Vault s → Vault s → Type 0 where
    no_version : {vault : Vault s} → WrapsAll name target [] vault vault
    skips :
        {version : VersionRecord} {versions : List VersionRecord} {vault after : Vault s}
        → up_to_date version target ≡ true
        → WrapsAll name target versions vault after
        → WrapsAll name target (version ∷ versions) vault after
    wraps :
        {version : VersionRecord} {versions : List VersionRecord} {vault mid after : Vault s}
        → up_to_date version target ≡ false
        → rewrap_one s now name version target vault ≡ (done tt, mid)
        → WrapsAll name target versions mid after
        → WrapsAll name target (version ∷ versions) vault after

  -- such a run over the live versions of each secret in turn
  pub data SweepsAll (target : ℤ) : List SecretRecord → Vault s → Vault s → Type 0 where
    no_secret : {vault : Vault s} → SweepsAll target [] vault vault
    sweeps :
        {secret : SecretRecord} {secrets : List SecretRecord} {vault mid after : Vault s}
        (versions : List VersionRecord)
        → Engine.live_versions s.r vault.db secret.name now ≡ ok versions
        → WrapsAll secret.name target versions vault mid
        → SweepsAll target secrets mid after
        → SweepsAll target (secret ∷ secrets) vault after

  needs-up_to_date :
      (version : VersionRecord) (target : ℤ)
      → up_to_date version target ≡ not (needs_rewrap version target)
  unfolding needs_rewrap
  needs-up_to_date version target = ground arith

  failed_grows :
      (name : Bytes) (versions : List VersionRecord) (target : ℤ) (summary : RewrapSummary)
      (vault : Vault s)
      → summary.failed ≤ (rewrap_versions s now name versions target summary vault).0.failed
  unfolding rewrap_versions
  failed_grows name [] target summary vault = omega arith
  failed_grows name (version ∷ versions) target summary vault =
      let one = rewrap_one s now name version target vault in
      let tried = failed_grows name versions target (counted (scanned_one summary) one.0) one.1 in
      elim (ApiResult-cases one.0) [
        | inl (unit, e) ↦
            ground (arith, tried, failed_grows name versions target (scanned_one summary) vault)
        | inr (e, refusal) ↦
            ground (arith, tried, failed_grows name versions target (scanned_one summary) vault)
      ]

  rewrap_versions-WrapsAll :
      (name : Bytes) (versions : List VersionRecord) (target : ℤ) (summary : RewrapSummary)
      (vault : Vault s)
      → (rewrap_versions s now name versions target summary vault).0.failed ≡ 0
      → WrapsAll name target versions vault
          (rewrap_versions s now name versions target summary vault).1
  unfolding rewrap_versions
  rewrap_versions-WrapsAll name [] target summary vault h = no_version
  rewrap_versions-WrapsAll name (version ∷ versions) target summary vault h =
      let one = rewrap_one s now name version target vault in
      let counts = counted (scanned_one summary) one.0 in
      elim (Bool-cases (needs_rewrap version target)) [
        | inr old ↦ rw old (
            skips (ground (arith, needs-up_to_date version target)) (
              rewrap_versions-WrapsAll name versions target (scanned_one summary) vault
                (ground arith)))
        | inl needs ↦ elim (ApiResult-cases one.0) [
          | inl (unit, e) ↦ rw needs (
              wraps (ground (arith, needs-up_to_date version target)) (ground arith)
                (rewrap_versions-WrapsAll name versions target counts one.1 (ground arith)))
          | inr (e, refusal) ↦
              absurd (ground (arith, failed_grows name versions target counts one.1))
        ]
      ]

  rewrap_secrets-grows :
      (secrets : List SecretRecord) (target : ℤ) (summary final : RewrapSummary) (vault : Vault s)
      → (rewrap_secrets s now secrets target summary vault).0 ≡ done final
      → summary.failed ≤ final.failed
  unfolding rewrap_secrets
  rewrap_secrets-grows [] target summary final vault h = ground arith
  rewrap_secrets-grows (secret ∷ secrets) target summary final vault h =
      elim (StoreResult-cases (Engine.live_versions s.r vault.db secret.name now)) [
        | inr (e, failed) ↦ absurd (ground arith)
        | inl (versions, e) ↦
            let inner = rewrap_versions s now secret.name versions target summary vault in
            ground (
              arith,
              rewrap_secrets-grows secrets target inner.0 final inner.1,
              failed_grows secret.name versions target summary vault,
            )
      ]

  rewrap_secrets-SweepsAll :
      (secrets : List SecretRecord) (target : ℤ) (summary final : RewrapSummary) (vault : Vault s)
      → (rewrap_secrets s now secrets target summary vault).0 ≡ done final
      → final.failed ≡ 0
      → SweepsAll target secrets vault (rewrap_secrets s now secrets target summary vault).1
  unfolding rewrap_secrets
  rewrap_secrets-SweepsAll [] target summary final vault h clean = no_secret
  rewrap_secrets-SweepsAll (secret ∷ secrets) target summary final vault h clean =
      elim (StoreResult-cases (Engine.live_versions s.r vault.db secret.name now)) [
        | inr (e, failed) ↦ absurd (ground arith)
        | inl (versions, e) ↦
            let inner = rewrap_versions s now secret.name versions target summary vault in
            let later : (rewrap_secrets s now secrets target inner.0 inner.1).0 ≡ done final =
              ground arith in
            let none_failed : inner.0.failed ≡ 0 =
              ground (arith, rewrap_secrets-grows secrets target inner.0 final inner.1 later) in
            rw e (
              sweeps versions e
                (rewrap_versions-WrapsAll secret.name versions target summary vault none_failed)
                (rewrap_secrets-SweepsAll secrets target inner.0 final inner.1 later clean))
      ]

  pub run_pass-SweepsAll :
      (target : ℤ) (busy : Bool) (vault : Vault s) (summary : RewrapSummary)
      → (run_pass s now target (busy, vault)).0 ≡ done summary
      → summary.failed ≡ 0
      → (secrets : List SecretRecord) × ((busy ≡ false)
          × (Engine.list_secrets s.r vault.db ≡ ok secrets)
          × SweepsAll target secrets vault (run_pass s now target (busy, vault)).1.1)
  unfolding run_pass
  run_pass-SweepsAll target true vault summary h clean = absurd (ground arith)
  run_pass-SweepsAll target false vault summary h clean =
      elim (StoreResult-cases (Engine.list_secrets s.r vault.db)) [
        | inr (e, failed) ↦ absurd (ground arith)
        | inl (secrets, e) ↦
            let run = rewrap_secrets s now secrets target nothing_scanned vault in
            let reached : (run_pass s now target (false, vault)).1.1 ≡ run.1 = ground arith in
            let swept =
              rewrap_secrets-SweepsAll secrets target nothing_scanned summary vault (ground arith)
                clean in
            (secrets, (refl, e, rw reached swept))
      ]
