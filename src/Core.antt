-- ===== src/Core.antt =====
-- crates/hyperion-vault-core: the pure rules about names, roles, rotation times and associated data.
pub mod Decimal
pub mod Names
pub mod Aad
pub mod Rbac
pub mod Rotation
pub mod Allowlist
pub mod Examples
