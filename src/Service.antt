-- ===== src/Service.antt =====
-- crates/hyperion-vault-api/src: the service of secrets, its targets, and the workers on top of it.
pub mod Site
pub mod Check
pub mod Seal
pub mod Secrets
pub mod Handlers
pub mod Verify
pub mod Rotate
pub mod Retry
pub mod Sealing
pub mod Payloads
pub mod Created
pub mod Rewrap
pub mod Sweep
pub mod Watermark
pub mod Worker
pub mod Sample
mod Tests
