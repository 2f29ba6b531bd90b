-- ===== src/Service/Watermark.antt =====
-- rewrap.rs and rewrap_worker.rs: when the record of the re-wrapping moves.
use hyperion_vault.Prelude.{
  ℕ, ◌≡◌, ◌⊎◌, refl, inl, inr, List, [], ◌∷◌, Bool, true, false, none, some, Bytes, ℤ, leb_ℤ, ◌==◌,
  arith, Bool-cases, Option-cases,
}
use hyperion_vault.Store.Model
use hyperion_vault.Store.Model.{SecretRecord, VersionRecord, KmsRewrapState, StoreResult, ok, err}
use hyperion_vault.Store.Engine
use hyperion_vault.Store.Db.{Db, StoreResult-cases}
use hyperion_vault.Store.Apply.{apply_command}
use hyperion_vault.Store.Apply.Upkeep
use hyperion_vault.Api.Error.{ApiResult, ApiResult-cases, done, refused}
use hyperion_vault.Service.Site.{Site, Vault, Op}
use hyperion_vault.Service.Sweep.{SweepsAll, run_pass-SweepsAll}
use hyperion_vault.Service.Rewrap.{
  RewrapSummary, nothing_scanned, needs_rewrap, counted, scanned_one, rewrap_one, rewrap_versions,
  rewrap_secrets, run_pass, persist_completed, passed, latest, tick_at, tick,
}

module _ (s : Site) (now : ℤ) where
  -- a step that keeps the record of the re-wrapping
  abbrev KeepsRecord : {A : Type 0} → Op s A → Type 0
  KeepsRecord m = (vault : Vault s) → (m vault).1.db.kms_rewrap ≡ vault.db.kms_rewrap

  rewrap_version-kms_rewrap :
      (node_id : ℕ) (name : Bytes) (version : ℤ) (key wrapped : Bytes) (at : ℤ) (db : Db s.r)
      → (Engine.apply s.r node_id
          (Model.rewrap_version name version key wrapped at)
          db).1.kms_rewrap
        ≡ db.kms_rewrap
  unfolding Engine.apply apply_command Upkeep.rewrap_version
  rewrap_version-kms_rewrap node_id name version key wrapped at db = ground arith

  rewrap_one-KeepsRecord :
      (name : Bytes) (version : VersionRecord) (target : ℤ)
      → KeepsRecord (rewrap_one s now name version target)
  unfolding rewrap_one
  rewrap_one-KeepsRecord name version target vault =
      let out =
        s.externals.reencrypt_data_key version.wrapped_dek version.kms_key_id name version.version
          vault.world in
      elim (Option-cases out.0) [
        | inl e ↦ ground arith
        | inr (wrapped, e) ↦ ground (
          arith,
          rewrap_version-kms_rewrap s.settings.node_id name version.version wrapped.1 wrapped.0
              target vault.db,
        )
      ]

  rewrap_versions-kms_rewrap :
      (name : Bytes) (versions : List VersionRecord) (target : ℤ) (summary : RewrapSummary)
      (vault : Vault s)
      → (rewrap_versions s now name versions target summary vault).1.db.kms_rewrap
        ≡ vault.db.kms_rewrap
  unfolding rewrap_versions
  rewrap_versions-kms_rewrap name [] target summary vault = refl
  rewrap_versions-kms_rewrap name (version ∷ versions) target summary vault =
      let one = rewrap_one s now name version target vault in
      elim (Bool-cases (needs_rewrap version target)) [
        | inl needs ↦ ground (
          arith,
          rewrap_versions-kms_rewrap name versions target (counted (scanned_one summary) one.0)
              one.1,
          rewrap_one-KeepsRecord name version target vault,
        )
        | inr skips ↦
            ground
              (arith, rewrap_versions-kms_rewrap name versions target (scanned_one summary) vault)
      ]

  rewrap_secrets-KeepsRecord :
      (secrets : List SecretRecord) (target : ℤ) (summary : RewrapSummary)
      → KeepsRecord (rewrap_secrets s now secrets target summary)
  unfolding rewrap_secrets
  rewrap_secrets-KeepsRecord [] target summary vault = refl
  rewrap_secrets-KeepsRecord (secret ∷ secrets) target summary vault =
      elim (StoreResult-cases (Engine.live_versions s.r vault.db secret.name now)) [
        | inr (e, failed) ↦ ground arith
        | inl (versions, e) ↦
            let inner = rewrap_versions s now secret.name versions target summary vault in
            ground (
              arith,
              rewrap_secrets-KeepsRecord secrets target inner.0 inner.1,
              rewrap_versions-kms_rewrap secret.name versions target summary vault,
            )
      ]

  run_pass-kms_rewrap :
      (target : ℤ) (busy : Bool) (vault : Vault s)
      → (run_pass s now target (busy, vault)).1.1.db.kms_rewrap ≡ vault.db.kms_rewrap
  unfolding run_pass
  run_pass-kms_rewrap target true vault = refl
  run_pass-kms_rewrap target false vault =
      elim (StoreResult-cases (Engine.list_secrets s.r vault.db)) [
        | inr (e, failed) ↦ ground arith
        | inl (secrets, e) ↦
            ground (arith, rewrap_secrets-KeepsRecord secrets target nothing_scanned vault)
      ]

  passed-failed :
      (worth : Bool) (target : ℤ) (busy : Bool) (vault : Vault s) (res : ApiResult RewrapSummary)
      → ((summary : RewrapSummary) → res ≡ done summary → (summary.failed == 0) ≡ false)
      → (passed s now worth target (res, (busy, vault))).1.1 ≡ vault
  passed-failed worth target busy vault (refused e) h = refl
  passed-failed worth target busy vault (done summary) h = ground (arith, h summary refl)

  -- a pass on an idle node for a newer rotation that the KMS has named, which has listed every secret,
  -- has wrapped every outdated live version of each with success, and then records that rotation
  abbrev pub CleanPass : Bool → Vault s → KmsRewrapState → Vault s → Type 0
  CleanPass busy vault state left =
      let (answer, start) = latest s now vault in
      (target : ℤ) × ((secrets : List SecretRecord) × ((after : Vault s) × ((busy ≡ false)
            × (answer ≡ done (some target))
            × (leb_ℤ target state.last_completed_rotation_at ≡ false)
            × (Engine.list_secrets s.r start.db ≡ ok secrets)
            × SweepsAll s now target secrets start after
            × (left ≡ (persist_completed s now target after).1))))

  tick_at-kms_rewrap :
      (state : KmsRewrapState) (target : ℤ) (busy : Bool) (vault : Vault s)
      → ((tick_at s now (some state) (some target) (busy, vault)).1.1.db.kms_rewrap
          ≡ vault.db.kms_rewrap)
        ⊎ ((leb_ℤ target state.last_completed_rotation_at ≡ false)
            × ((summary : RewrapSummary) × (((run_pass s now target (busy, vault)).0 ≡ done summary)
                  × ((summary.failed == 0) ≡ true)
                  × ((tick_at s now (some state) (some target) (busy, vault)).1.1
                      ≡ (persist_completed s now target
                          (run_pass s now target (busy, vault)).1.1).1))))
  tick_at-kms_rewrap state target busy vault =
      let pass = run_pass s now target (busy, vault) in
      let kept = run_pass-kms_rewrap target busy vault in
      elim (Bool-cases (leb_ℤ target state.last_completed_rotation_at)) [
        | inl old ↦ inl (ground arith)
        | inr newer ↦ elim (ApiResult-cases pass.0) [
          | inr (e, failed) ↦ inl (ground (arith, kept))
          | inl (summary, ran) ↦ elim (Bool-cases (summary.failed == 0)) [
            | inl clean ↦
                let rotation = persist_completed s now target pass.1.1 in
                elim (ApiResult-cases rotation.0) [
                  | inl (unit, e) ↦ inr (newer, (summary, (ran, clean, ground arith)))
                  | inr (e, refusal) ↦ inr (newer, (summary, (ran, clean, ground arith)))
                ]
            | inr dirty ↦ inl (ground (arith, kept))
          ]
        ]
      ]

  -- Once a rotation is recorded, a tick of the worker leaves the record as it is, unless the node was idle,
  -- the KMS has named a newer rotation, and each live version of each secret was wrapped for that
  -- rotation already or has been wrapped anew with success. The node is then left as the recording of
  -- that rotation, right after the pass, leaves it.
  pub tick-CleanPass :
      (leader busy : Bool) (vault : Vault s) (state : KmsRewrapState)
      → Engine.kms_rewrap_state s.r vault.db ≡ ok (some state)
      → ((tick s now leader (busy, vault)).1.1.db.kms_rewrap ≡ vault.db.kms_rewrap)
        ⊎ CleanPass busy vault state (tick s now leader (busy, vault)).1.1
  unfolding tick
  tick-CleanPass false busy vault state h = inl refl
  tick-CleanPass true busy vault state h = elim (ApiResult-cases (latest s now vault).0) [
    | inr (e, failed) ↦ inl (ground arith)
    | inl (none, found) ↦ inl (ground arith)
    | inl (some target, found) ↦
        elim (tick_at-kms_rewrap state target busy (latest s now vault).1) [
          | inl kept ↦ inl (ground arith)
          | inr (newer, (summary, (ran, clean, recorded))) ↦
              let start = (latest s now vault).1 in
              let (secrets, (idle, listed, swept)) =
                run_pass-SweepsAll s now target busy start summary ran (ground arith) in
              let left : (tick s now true (busy, vault)).1.1
                  ≡ (persist_completed s now target (run_pass s now target (busy, start)).1.1).1 =
                ground arith in
              inr (target, (secrets, (_, (idle, found, newer, listed, swept, left))))
        ]
  ]
