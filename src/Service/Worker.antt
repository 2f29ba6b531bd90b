-- ===== src/Service/Worker.antt =====
-- rotation_worker.rs: a tick of the worker that rotates the secrets that are due.
use hyperion_vault.Prelude.{ℕ, List, [], ◌∷◌, Bool, none, ℤ, codes, if◌then◌else◌}
use hyperion_vault.Store.Model
use hyperion_vault.Store.Model.{SecretRecord}
use hyperion_vault.Store.Engine
use hyperion_vault.Api.Error.{done}
use hyperion_vault.Service.Site.{Site, Op, ◌>>=◌, ◌>>◌, give, read, apply}
use hyperion_vault.Service.Rotate.{rotate}

module _ (s : Site) (now : ℤ) (clock : ℕ) where
  -- the loop: a rotation that fails is logged, and the next one follows
  unfoldable pub rotate_each : List SecretRecord → Op s (Unit {0})
  unfolding rotate
  rotate_each [] vault = (done tt, vault)
  rotate_each (secret ∷ secrets) vault =
      rotate_each secrets (rotate s now clock (codes "rotation-worker") none secret.name vault).1

  abbrev expire_and_rotate : Op s (Unit {0})
  expire_and_rotate = do
    apply s (Model.expire_grace_versions now)
    due ← read s (λ db. Engine.due_rotations s.r db now)
    rotate_each due

  unfoldable pub tick : Bool → Op s (Unit {0})
  unfolding rotate_each Engine.due_rotations
  tick leader = if leader then expire_and_rotate else give s tt
