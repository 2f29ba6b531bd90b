-- ===== src/Api/Authz.antt =====
-- authz.rs: whether an authenticated actor may act; a refusal counts as a failure of its peer.
use hyperion_vault.Prelude.{
  List, [], Bool, false, not, ◌&&◌, Option, none, some, Bytes, ℤ, if◌then◌else◌, bytes_eq,
}
use hyperion_vault.Core.Rbac
use hyperion_vault.Core.Rbac.{Rule}
use hyperion_vault.Store.Model.{RotationTarget, pg_replica}
use hyperion_vault.Store.Redb.{Storage}
use hyperion_vault.Api.Error.{IpAddr, Outside, Settings, forbidden, Handler, ◌>>◌, give, refuse}
use hyperion_vault.Api.Lockout.{record_ip}

pub record AdminActor : Type 0 where
  pub name : Bytes
  pub is_admin : Bool
  pub rules : List Rule
  pub client_ip : Option IpAddr
  pub peer_ip : Option IpAddr

-- the role of the target is the user name of the request
abbrev pub foreign_role : AdminActor → Option Bytes → Option Bytes → Bool
foreign_role actor none username = false
foreign_role actor (some role) none = not actor.is_admin && not (bytes_eq role [])
foreign_role actor (some role) (some username) = not actor.is_admin && not (bytes_eq role username)

abbrev pub hidden_login : AdminActor → Option Bytes → Bool
hidden_login actor none = false
hidden_login actor (some login) = not (Rbac.visible actor.is_admin actor.rules login)

module _ (r : Storage) (outside : Outside) (settings : Settings) (now : ℤ) where
  -- the failure is counted, then the request is refused
  abbrev pub deny : AdminActor → Handler r (Unit {0})
  deny actor = do record_ip r outside settings now actor.peer_ip; refuse r forbidden

  unfoldable pub authorize : AdminActor → Bytes → Bytes → Handler r (Unit {0})
  authorize actor action name =
      if Rbac.authorize actor.is_admin actor.rules action name then give r tt else deny actor

  -- the target and the user name of a request to create a secret
  unfoldable pub authorize_rotation_target :
      AdminActor → Option RotationTarget → Option Bytes → Handler r (Unit {0})
  authorize_rotation_target actor none username = give r tt
  authorize_rotation_target actor (some (pg_replica pg)) username =
      if hidden_login actor pg.login_secret
      then deny actor
      else if foreign_role actor pg.role username
      then deny actor
      else give r tt

  unfoldable pub require_admin : AdminActor → Handler r (Unit {0})
  require_admin actor = if actor.is_admin then give r tt else deny actor
