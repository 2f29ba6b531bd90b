-- ===== src/Store.antt =====
-- crates/hyperion-vault-api/src/store: the records, the tables, and the commands that change them.
pub mod Model
pub mod Redb
pub mod Keys
pub mod Db
pub mod Backup
pub mod Apply
pub mod Atomic
pub mod Engine
pub mod Versions
pub mod Concurrency
pub mod Expiry
pub mod Audit
pub mod Restore
pub mod Current
pub mod Examples
pub mod Tests
pub mod Creation
