-- ===== src/Api.antt =====
-- crates/hyperion-vault-api/src: what an HTTP request does with the store before and around its
-- handler, and the handlers of roles and tokens.
pub mod Error
pub mod Lockout
pub mod Authz
pub mod Guards
pub mod DekCache
pub mod Manage
pub mod Sample
mod Tests
