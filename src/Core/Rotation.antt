-- ===== src/Core/Rotation.antt =====
-- crates/hyperion-vault-core/src/rotation.rs: the times of rotations and the numbers of versions.
use hyperion_vault.Prelude.{
  ◌-◌, ◌*◌, ◌^◌, ◌≡◌, ◌↔◌, Bool, true, Option, none, some, arith, ℤ, pos, negsuc, ◌+ℤ◌, +ℤ_parts,
  ◌≤ℤ◌, ◌<ℤ◌, ltb_ℤ, leb_ℤ, IsI64, IsI32, if◌then◌else◌, eq_of_parts,
}

abbrev pub i64_max : ℤ
i64_max = pos (2 ^ 63 - 1)

abbrev pub i64_min : ℤ
i64_min = negsuc (2 ^ 63 - 1)

abbrev pub i32_max : ℤ
i32_max = pos (2 ^ 31 - 1)

abbrev pub max_rotation_interval_secs : ℤ
max_rotation_interval_secs = pos (100 * 365 * 24 * 60 * 60)

abbrev pub max_grace_secs : ℤ
max_grace_secs = max_rotation_interval_secs

-- `i64::saturating_add`
unfoldable pub saturating_add : ℤ → ℤ → ℤ
saturating_add a b =
    if ltb_ℤ i64_max (a +ℤ b) then i64_max else if ltb_ℤ (a +ℤ b) i64_min then i64_min else a +ℤ b

unfoldable pub next_rotation_unix : ℤ → ℤ → ℤ
unfolding saturating_add
next_rotation_unix from_unix interval_secs = saturating_add from_unix interval_secs

unfoldable pub grace_expiry_unix : ℤ → ℤ → ℤ
unfolding saturating_add
grace_expiry_unix superseded_at_unix grace_secs = saturating_add superseded_at_unix grace_secs

-- `i32::checked_add(1)`
unfoldable pub next_version : ℤ → Option ℤ
next_version current = if ltb_ℤ current i32_max then some (current +ℤ pos 1) else none

unfoldable pub is_due : ℤ → ℤ → Bool
is_due now_unix next_rotation_unix = leb_ℤ next_rotation_unix now_unix

unfoldable pub version_active : ℤ → Option ℤ → Bool
version_active now_unix none = true
version_active now_unix (some expiry) = ltb_ℤ now_unix expiry

-- A time of rotation is an `i64`, is no earlier than its start when the interval is not negative,
-- and is the exact sum unless that is above the largest `i64`.
next_rotation_bounds :
    (from interval : ℤ)
    → IsI64 from
    → IsI64 interval
    → pos 0 ≤ℤ interval
    → IsI64 (next_rotation_unix from interval)
      × (from ≤ℤ next_rotation_unix from interval)
      × (from +ℤ interval ≤ℤ i64_max → next_rotation_unix from interval ≡ from +ℤ interval)
unfolding next_rotation_unix
next_rotation_bounds from interval hf hi h = ground (arith, +ℤ_parts from interval)

-- A version superseded at a time, with a grace period that is not negative, is active exactly
-- before the sum of the two, or before the largest `i64` if the sum is above it.
pub version_active-grace_expiry_iff :
    (now superseded grace : ℤ)
    → IsI64 superseded
    → IsI64 grace
    → pos 0 ≤ℤ grace
    → (version_active now (some (grace_expiry_unix superseded grace)) ≡ true)
      ↔ ((now <ℤ superseded +ℤ grace) × (now <ℤ i64_max))
unfolding version_active grace_expiry_unix
version_active-grace_expiry_iff now superseded grace hs hg h =
    (λ e. ground (arith, +ℤ_parts superseded grace), λ e. ground (arith, +ℤ_parts superseded grace))

-- Within `i32` the next version is one more, and there is none exactly at the largest `i32`.
next_version_lem :
    (current : ℤ)
    → IsI32 current
    → (next_version current ≡ none → current ≡ i32_max)
      × ((v : ℤ) → next_version current ≡ some v → IsI32 v × (v ≡ current +ℤ pos 1))
unfolding next_version
next_version_lem current h = (
  λ e. ground (arith, eq_of_parts current i32_max),
  λ v e. ground (arith, +ℤ_parts current (pos 1)),
)
