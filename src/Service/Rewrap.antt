-- ===== src/Service/Rewrap.antt =====
-- rewrap.rs and rewrap_worker.rs: the pass that wraps the data keys of the live versions anew, and the
-- record of the rotation up to which that is done. The flag of a running pass is a part of the state.
use hyperion_vault.Prelude.{
  ℕ, ◌+◌, List, [], ◌∷◌, Bool, true, false, ◌&&◌, Option, none, some, Bytes, ℤ, pos, ltb_ℤ, leb_ℤ,
  ◌==◌, if◌then◌else◌, length,
}
use hyperion_vault.Store.Model
use hyperion_vault.Store.Model.{SecretRecord, VersionRecord, KmsRewrapState, StoreResult, ok, err}
use hyperion_vault.Store.Engine
use hyperion_vault.Api.Error.{broken, ApiResult, done, refused}
use hyperion_vault.Service.Site.{Site, Vault, Op, ◌>>=◌, give, read, apply, call}

pub record RewrapSummary : Type 0 where
  pub scanned : ℕ
  pub rewrapped : ℕ
  pub failed : ℕ

pub record RewrapRunResponse : Type 0 where
  pub scanned : ℕ
  pub rewrapped : ℕ
  pub failed : ℕ
  pub target_rotation_at : Option Bytes

abbrev pub nothing_scanned : RewrapSummary
nothing_scanned = record { scanned = 0; rewrapped = 0; failed = 0 }

unfoldable pub needs_rewrap : VersionRecord → ℤ → Bool
needs_rewrap version target = elim version.wrapped_rotation_at [
  | none ↦ true
  | some current ↦ ltb_ℤ current target
]

abbrev pub or_zero : Option ℤ → ℤ
or_zero none = pos 0
or_zero (some n) = n

-- the count of a version whose key was wrapped anew, or was not
abbrev pub counted : RewrapSummary → ApiResult (Unit {0}) → RewrapSummary
counted summary (done _) = record summary { rewrapped = summary.rewrapped + 1 }
counted summary (refused _) = record summary { failed = summary.failed + 1 }

abbrev pub scanned_one : RewrapSummary → RewrapSummary
scanned_one summary = record summary { scanned = summary.scanned + 1 }

module _ (s : Site) (now : ℤ) where
  unfoldable pub rewrap_one : Bytes → VersionRecord → ℤ → Op s (Unit {0})
  rewrap_one name version target = do
    wrapped ←
        call s (
          s.externals.reencrypt_data_key version.wrapped_dek version.kms_key_id name
            version.version)
    apply s (Model.rewrap_version name version.version wrapped.1 wrapped.0 target)

  -- the inner loop; a version that fails is counted, and the loop goes on
  unfoldable pub rewrap_versions :
      Bytes → List VersionRecord → ℤ → RewrapSummary → Vault s → RewrapSummary × Vault s
  unfolding needs_rewrap rewrap_one
  rewrap_versions name [] target summary vault = (summary, vault)
  rewrap_versions name (version ∷ versions) target summary vault =
      let seen = scanned_one summary in
      let (res, after) = rewrap_one name version target vault in
      let skipped = rewrap_versions name versions target seen vault in
      let tried = rewrap_versions name versions target (counted seen res) after in
      if needs_rewrap version target then tried else skipped

  unfoldable pub rewrap_secrets : List SecretRecord → ℤ → RewrapSummary → Op s RewrapSummary
  unfolding rewrap_versions Engine.live_versions
  rewrap_secrets [] target summary = give s summary
  rewrap_secrets (secret ∷ secrets) target summary = do
    versions ← read s (λ db. Engine.live_versions s.r db secret.name now)
    next ← (λ vault.
        let (counts, after) = rewrap_versions secret.name versions target summary vault in
        (done counts, after))
    rewrap_secrets secrets target next

  abbrev pub sweep : ℤ → Op s RewrapSummary
  sweep target = do
    secrets ← read s (Engine.list_secrets s.r)
    rewrap_secrets secrets target nothing_scanned

  -- a second pass is refused while one runs; the guard clears the flag however a pass ends
  unfoldable pub run_pass : ℤ → Bool × Vault s → ApiResult RewrapSummary × (Bool × Vault s)
  unfolding rewrap_secrets Engine.list_secrets
  run_pass target (busy, vault) =
      let (res, after) = sweep target vault in
      if busy then (refused broken, (true, vault)) else (res, (false, after))

  unfoldable pub persist_completed : ℤ → Op s (Unit {0})
  persist_completed target = apply s (
      Model.set_kms_rewrap_state
        (record { last_completed_rotation_at = target; last_swept_at = now; updated_at = now }))

  -- the end of a pass: its rotation is recorded when nothing failed
  abbrev pub settle : Bool → ℤ → RewrapSummary → Op s RewrapSummary
  settle worth target summary =
      if (summary.failed == 0) && worth
      then (persist_completed target >>= (λ _. give s summary))
      else give s summary

  abbrev pub passed :
      Bool
      → ℤ
      → ApiResult RewrapSummary × (Bool × Vault s)
      → ApiResult RewrapSummary × (Bool × Vault s)
  passed worth target (refused e, (busy, vault)) = (refused e, (busy, vault))
  passed worth target (done summary, (busy, vault)) =
      let (res, after) = settle worth target summary vault in (res, (busy, after))

  abbrev pub latest : Vault s → ApiResult (Option ℤ) × Vault s
  latest = call s s.externals.latest_rotation_at

  -- the answer to a forced pass: the counts and the time of the rotation
  abbrev respond :
      ℤ
      → ApiResult RewrapSummary × (Bool × Vault s)
      → ApiResult RewrapRunResponse × (Bool × Vault s)
  respond target (refused e, state) = (refused e, state)
  respond target (done summary, state) = (
    done (record {
      scanned = summary.scanned;
      rewrapped = summary.rewrapped;
      failed = summary.failed;
      target_rotation_at = if ltb_ℤ (pos 0) target then some (s.externals.rfc3339 target) else none;
    }),
    state,
  )

  abbrev pub forced :
      ApiResult (Option ℤ) × Vault s → Bool → ApiResult RewrapRunResponse × (Bool × Vault s)
  forced (refused e, vault) busy = (refused e, (busy, vault))
  forced (done found, vault) busy = respond (or_zero found) (
      passed (ltb_ℤ (pos 0) (or_zero found)) (or_zero found)
        (run_pass (or_zero found) (busy, vault)))

  unfoldable pub force : Bool × Vault s → ApiResult RewrapRunResponse × (Bool × Vault s)
  unfolding run_pass persist_completed
  force (busy, vault) = forced (latest vault) busy

  -- a tick of the worker, with what it has read
  abbrev pub without_summary :
      ApiResult RewrapSummary × (Bool × Vault s) → ApiResult (Unit {0}) × (Bool × Vault s)
  without_summary (done _, state) = (done tt, state)
  without_summary (refused e, state) = (refused e, state)

  abbrev pub tick_at :
      Option KmsRewrapState → Option ℤ → Bool × Vault s → ApiResult (Unit {0}) × (Bool × Vault s)
  tick_at none found (busy, vault) =
      let (res, after) = persist_completed (or_zero found) vault in (res, (busy, after))
  tick_at (some state) none (busy, vault) = (done tt, (busy, vault))
  tick_at (some state) (some target) (busy, vault) =
      if leb_ℤ target state.last_completed_rotation_at
      then (done tt, (busy, vault))
      else without_summary (passed true target (run_pass target (busy, vault)))

  abbrev pub ticked :
      ApiResult (Option ℤ) × Vault s → Bool → ApiResult (Unit {0}) × (Bool × Vault s)
  ticked (refused e, vault) busy = (refused e, (busy, vault))
  ticked (done found, vault) busy = elim (Engine.kms_rewrap_state s.r vault.db) [
    | err e ↦ (refused broken, (busy, vault))
    | ok state ↦ tick_at state found (busy, vault)
  ]

  -- `tick` of the worker; only the leader does something
  unfoldable pub tick : Bool → Bool × Vault s → ApiResult (Unit {0}) × (Bool × Vault s)
  unfolding run_pass persist_completed Engine.kms_rewrap_state
  tick leader (busy, vault) =
      if leader then ticked (latest vault) busy else (done tt, (busy, vault))

abbrev pub pending : ℤ → List VersionRecord → ℕ
pending target [] = 0
pending target (version ∷ versions) =
    let rest = pending target versions in if needs_rewrap version target then rest + 1 else rest

pub record RewrapStatusResponse : Type 0 where
  pub enabled : Bool
  pub busy : Bool
  pub last_completed_rotation_at : Option Bytes
  pub latest_rotation_at : Option Bytes
  pub total_versions : ℕ
  pub pending_versions : ℕ

abbrev completed : Option KmsRewrapState → ℤ
completed none = pos 0
completed (some state) = state.last_completed_rotation_at

-- `ok().flatten()`: an error counts as no rotation
abbrev known : ApiResult (Option ℤ) → Option ℤ
known (done found) = found
known (refused e) = none

abbrev target_of : Option ℤ → ℤ → ℤ
target_of none last = last
target_of (some target) last = target

module _ (s : Site) (now : ℤ) where
  -- the counts over all live versions
  unfoldable pub count_versions : List SecretRecord → ℤ → ℕ → ℕ → Op s (ℕ × ℕ)
  unfolding Engine.live_versions needs_rewrap
  count_versions [] target total waiting = give s (total, waiting)
  count_versions (secret ∷ secrets) target total waiting = do
    versions ← read s (λ db. Engine.live_versions s.r db secret.name now)
    count_versions secrets target (total + length versions) (waiting + pending target versions)

  abbrev printed : Option ℤ → Option Bytes
  printed none = none
  printed (some at) = some (s.externals.rfc3339 at)

  abbrev positive : ℤ → Option ℤ
  positive at = if ltb_ℤ (pos 0) at then some at else none

  abbrev count_all : Bool → Bool → ℤ → Option ℤ → Op s RewrapStatusResponse
  count_all enabled busy last found = do
    secrets ← read s (Engine.list_secrets s.r)
    counts ← count_versions secrets (target_of found last) 0 0
    give s (record {
      enabled = enabled;
      busy = busy;
      last_completed_rotation_at = printed (positive last);
      latest_rotation_at = printed found;
      total_versions = counts.0;
      pending_versions = counts.1;
    })

  abbrev asked : Op s (ApiResult (Option ℤ))
  asked vault = let (res, after) = latest s now vault in (done res, after)

  unfoldable pub status : Bool → Bool → Op s RewrapStatusResponse
  unfolding count_versions Engine.kms_rewrap_state Engine.list_secrets
  status enabled busy = do
    persisted ← read s (Engine.kms_rewrap_state s.r)
    res ← asked
    count_all enabled busy (completed persisted) (known res)
