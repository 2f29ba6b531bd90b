-- ===== src/Api/Guards/Tokens.antt =====
-- What a token lets its bearer do: the actor of a request, and a token that has been revoked.
use hyperion_vault.Prelude.{
  ◌≡◌, refl, ◌∙◌, inl, inr, [], Bool, false, Option, none, some, arith, Bytes, ℤ, List,
  Option-cases, bytes_eq_iff,
}
use hyperion_vault.Core.Rbac.{Rule}
use hyperion_vault.Store.Apply.{apply_command}
use hyperion_vault.Store.Model.{TokenRecord, RoleRecord, revoke_token, add_token, ok}
use hyperion_vault.Store.Redb.{Storage}
use hyperion_vault.Store.Db.{Db, StoreResult-cases}
use hyperion_vault.Store.Apply.Access
use hyperion_vault.Store.Engine
use hyperion_vault.Api.Error.{
  IpAddr, Outside, Settings, ApiResult-cases, done, refused, unauthorized,
}
use hyperion_vault.Api.Lockout.{check}
use hyperion_vault.Api.Authz.{AdminActor}
use hyperion_vault.Api.Guards.{
  Parts, admin_actor, bearer_token, peer_ip, client_ip, powers, live_token, accept, actor_of,
}

module _ (r : Storage) (outside : Outside) (settings : Settings) (now : ℤ) where
  -- the powers that a token's role has in the store
  abbrev pub Powers : Db r → Option Bytes → Bool × List Rule → Type 0
  Powers db none power = power ≡ (false, [])
  Powers db (some name) power =
      (found : Option RoleRecord) × (Engine.role r db name ≡ ok found) × (power ≡ powers found)

  check_unchanged : (ip : Option IpAddr) (db : Db r) → (check r outside settings now ip db).1 ≡ db
  unfolding check
  check_unchanged none db = ground arith
  check_unchanged (some ip) db = ground arith

  accept_done :
      (parts : Parts) (fingerprint : Bytes) (token : TokenRecord) (db : Db r) (actor : AdminActor)
      → (accept r outside settings now parts fingerprint token db).0 ≡ done actor
      → (actor.name ≡ token.name)
        × Powers db token.role (actor.is_admin, actor.rules)
        × (actor.peer_ip ≡ peer_ip parts)
        × (actor.client_ip ≡ client_ip outside parts settings.trust_proxy)
  accept_done parts fingerprint token db actor h = elim (Option-cases token.role) [
    | inl none_set ↦ (ground arith, rw none_set (ground arith), ground arith, ground arith)
    | inr (name, e) ↦ elim (StoreResult-cases (Engine.role r db name)) [
      | inr (bad, f) ↦ absurd (ground arith)
      | inl (found, f) ↦ (ground arith, rw e (found, f, ground arith), ground arith, ground arith)
    ]
  ]

  -- A request is accepted only if its peer is not locked out, and its bearer token has a record that
  -- is not revoked; the actor has the record's name and the powers that its role has in the store,
  -- none without a role, and the addresses of the request.
  pub admin_actor-done :
      (parts : Parts) (db : Db r) (actor : AdminActor)
      → (admin_actor r outside settings now parts db).0 ≡ done actor
      → (token : Bytes) × (record_of : TokenRecord) × ((check r outside settings now
            (peer_ip parts)
            db).0
          ≡ done tt)
        × (bearer_token parts ≡ some token)
        × (Engine.token_by_fingerprint r db (outside.fingerprint token) ≡ ok (some record_of))
        × (record_of.revoked_at ≡ none)
        × (actor.name ≡ record_of.name)
        × Powers db record_of.role (actor.is_admin, actor.rules)
        × (actor.peer_ip ≡ peer_ip parts)
        × (actor.client_ip ≡ client_ip outside parts settings.trust_proxy)
  unfolding admin_actor
  admin_actor-done parts db actor h =
      elim (ApiResult-cases (check r outside settings now (peer_ip parts) db).0) [
        | inr (e, locked) ↦ absurd (ground arith)
        | inl (_, unlocked) ↦ elim (Option-cases (bearer_token parts)) [
          | inl bare ↦ absurd (ground arith)
          | inr (token, bearer) ↦
              elim (StoreResult-cases
                (Engine.token_by_fingerprint r db (outside.fingerprint token))) [
                  | inr (e, bad) ↦ absurd (ground (arith, check_unchanged (peer_ip parts) db))
                  | inl (found, e) ↦ elim (Option-cases (live_token found)) [
                    | inl dead ↦ absurd (ground (arith, check_unchanged (peer_ip parts) db))
                    | inr (live, l) ↦
                        let accepted : (accept r outside settings now parts
                              (outside.fingerprint token) live db).0
                            ≡ done actor =
                          ground (arith, check_unchanged (peer_ip parts) db) in
                        let (named, power, peer, client) =
                          accept_done parts (outside.fingerprint token) live db actor accepted in
                        (
                          token,
                          live,
                          ground arith,
                          bearer,
                          ground arith,
                          ground arith,
                          named,
                          power,
                          peer,
                          client,
                        )
                  ]
                ]
        ]
      ]

  revoked_row :
      (name fingerprint : Bytes) (at : ℤ) (db : Db r)
      → r.str.get db.tokens_by_name name ≡ some fingerprint
      → (Engine.apply r settings.node_id (revoke_token name at) db).0 ≡ ok tt
      → (t : TokenRecord) × (Engine.token_by_fingerprint r
            (Engine.apply r settings.node_id (revoke_token name at) db).1
            fingerprint
          ≡ ok (some t))
        × (t.revoked_at ≡ some at)
  unfolding Engine.apply Engine.token_by_fingerprint apply_command Access.revoke_token
  revoked_row name fingerprint at db indexed h =
      elim (Option-cases (r.str.get db.tokens fingerprint)) [
        | inl absent ↦ absurd (ground arith)
        | inr (row, e) ↦ elim (Option-cases (r.codecs.token.decode row)) [
          | inl bad ↦ absurd (ground arith)
          | inr (t, d) ↦ elim (Option-cases (r.codecs.token.encode (revoked t))) [
            | inl bad ↦ absurd (ground arith)
            | inr (row', w) ↦ (
              revoked t,
              ground (
                arith,
                r.str.get-insert db.tokens fingerprint fingerprint row',
                bytes_eq_iff fingerprint fingerprint,
                r.codecs.token.decode-encode (revoked t) row' w,
              ),
              refl,
            )
          ]
        ]
      ]
    where
      revoked : TokenRecord → TokenRecord
      revoked t = record t { revoked_at = some at }

  -- Once a token has been revoked by its name, a request that bears it is refused as unauthorized, if
  -- its peer is not locked out already.
  pub admin_actor-revoke_token :
      (name token : Bytes) (at : ℤ) (parts : Parts) (db : Db r)
      → r.str.get db.tokens_by_name name ≡ some (outside.fingerprint token)
      → let (res, after) = Engine.apply r settings.node_id (revoke_token name at) db in
        res ≡ ok tt
        → bearer_token parts ≡ some token
        → (check r outside settings now (peer_ip parts) after).0 ≡ done tt
        → (admin_actor r outside settings now parts after).0 ≡ refused unauthorized
  unfolding admin_actor
  admin_actor-revoke_token name token at parts db indexed h bearer unlocked =
      let (t, found, gone) = revoked_row name (outside.fingerprint token) at db indexed h in
      let after = (Engine.apply r settings.node_id (revoke_token name at) db).1 in
      ground (arith, check_unchanged (peer_ip parts) after)

  added_row :
      (t : TokenRecord) (db : Db r)
      → (Engine.apply r settings.node_id (add_token t) db).0 ≡ ok tt
      → (Engine.token_by_fingerprint r
            (Engine.apply r settings.node_id (add_token t) db).1
            t.fingerprint
          ≡ ok (some t))
        × ((k : Bytes)
            → Engine.role r (Engine.apply r settings.node_id (add_token t) db).1 k
              ≡ Engine.role r db k)
  unfolding Engine.apply Engine.token_by_fingerprint Engine.role apply_command Access.add_token
  added_row t db h = elim (Option-cases (r.codecs.token.encode t)) [
    | inl bad ↦ absurd (ground arith)
    | inr (row, w) ↦ (
      ground (
        arith,
        r.str.get-insert db.tokens t.fingerprint t.fingerprint row,
        bytes_eq_iff t.fingerprint t.fingerprint,
        r.codecs.token.decode-encode t row w,
      ),
      λ k. ground arith,
    )
  ]

  -- Once a token has been added, with a role that is in the store, a request that bears it and whose
  -- peer is not locked out is accepted, with the name of the token and the powers of the role.
  pub admin_actor-add_token :
      (t : TokenRecord) (token name : Bytes) (role : RoleRecord) (parts : Parts) (db : Db r)
      → outside.fingerprint token ≡ t.fingerprint
      → t.revoked_at ≡ none
      → t.role ≡ some name
      → Engine.role r db name ≡ ok (some role)
      → let (res, after) = Engine.apply r settings.node_id (add_token t) db in
        res ≡ ok tt
        → bearer_token parts ≡ some token
        → (check r outside settings now (peer_ip parts) after).0 ≡ done tt
        → (admin_actor r outside settings now parts after).0
          ≡ done (actor_of r outside settings now parts t (role.is_admin, role.permissions))
  unfolding admin_actor
  admin_actor-add_token t token name role parts db same live named found h bearer unlocked =
      let (row, roles) = added_row t db h in
      let after = (Engine.apply r settings.node_id (add_token t) db).1 in
      let there : Engine.token_by_fingerprint r after (outside.fingerprint token) ≡ ok (some t) =
        rw same row in
      let role_there : Engine.role r after name ≡ ok (some role) = roles name ∙ found in
      ground (arith, check_unchanged (peer_ip parts) after)
