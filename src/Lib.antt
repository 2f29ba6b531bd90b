-- ===== src/Lib.antt =====
-- Hyperion Vault: a store of secrets, with versions, roles, tokens, lockouts and an audit log.
--
-- The parts of the program and the files that model them:
-- - crates/hyperion-vault-core/src: types.rs is Core/Names.antt and Core/Aad.antt, rbac.rs is
--   Core/Rbac.antt, rotation.rs is Core/Rotation.antt. Texts are lists of bytes, i32 and i64 are
--   integers with their bounds as predicates, saturating and checked addition written out.
-- - crates/hyperion-vault-api/src/store/model.rs is Store/Model.antt: the records, the commands and
--   the errors, with the fields of the source.
-- - crates/hyperion-vault-api/src/store/engine.rs is Store/Keys.antt (the keys of versions),
--   Store/Db.antt (the tables) and Store/Engine.antt (the readers, the transactions, the seeding).
-- - crates/hyperion-vault-api/src/store/apply.rs is Store/Apply.antt and the files of Store/Apply:
--   one function for each command, Secrets.antt, Access.antt and Upkeep.antt.
-- - crates/hyperion-vault-api/src/store/backup.rs is Store/Backup.antt.
-- - crates/hyperion-vault-core/src/ip_allowlist.rs is Core/Allowlist.antt.
-- - crates/hyperion-vault-api/src: error.rs and state.rs are Api/Error.antt, lockout.rs is
--   Api/Lockout.antt, authz.rs is Api/Authz.antt, guards.rs is Api/Guards.antt, cache.rs is
--   Api/DekCache.antt, manage.rs is Api/Manage.antt. A handler is a function from the tables of a node
--   that stands alone to an answer and the tables; a request reads the clock once.
-- - crates/hyperion-vault-api/src/raft: store.rs and types.rs are Raft/Types.antt (entries, metadata),
--   Raft/Log.antt (the log, its normalization and reset), Raft/Machine.antt (the loop that applies a
--   batch) and Raft/Snapshot.antt; peer.rs is Raft/Peer.antt; of node.rs the result of a replicated command. A method gives a value
--   or a storage error; the state of a node is its tables.
-- - crates/hyperion-vault-api/src: service.rs is in the files of Service: Check.antt (the checks of
--   requests), Seal.antt (sealing and opening a version), Secrets.antt and Handlers.antt (create, get,
--   update, delete), Rotate.antt and Verify.antt, on the state of Site.antt; rewrap.rs and
--   rewrap_worker.rs are Rewrap.antt, with the passes that succeed in Sweep.antt, rotation_worker.rs is
--   Worker.antt; of pg_apply.rs the list of
--   servers and the loops over them are in Check.antt and Rotate.antt, of kms.rs the retries in Retry.antt.
--
-- How they interact: a command is applied inside one write transaction of the database, a function
-- from the tables to a result and the tables (`Tx`). What a command wrote before an error is still
-- in the tables that come back beside the error; the engine drops them (`Engine.apply`), the
-- replicated apply loop goes on with them, unless the error is an internal one.
--
-- A request passes a guard, which reads lockouts, tokens and roles and counts failures, and then its
-- handler, which checks its arguments and sends commands to the engine. The answer of an audit
-- entry, of a counted failure and of a touched token is dropped, as in the source.
--
-- Parameters: the database redb and the JSON codec are not code of the repository. Store/Redb.antt
-- states what the store relies on: a table is a map that is iterated in the order of its keys, a
-- range is the part of the iteration between its bounds, and a record that was encoded decodes to
-- itself. Encoding may fail. That a table holds nothing but its rows is a hypothesis where replicas are
-- compared. Store/Redb/Sample.antt is such a database, with sorted lists and a plain encoding, and the
-- examples run on it; Store/Redb/Extensional.antt compares its tables by their rows. The text of an
-- address with its parser, the fingerprint of a token, networks and the printing of times are arguments
-- too. Openraft's log ids, votes and members, the KMS, the cipher and random values are such parameters
-- as well, with what they are documented to do as named laws, and Raft/Sample.antt and
-- Service/Sample.antt meet them.
--
-- Loops are structural recursion over the rows of a scan, so no fuel is needed. The retries of the KMS
-- run on fuel, one more than there are retries. Numbers that wrap in the source wrap here: the count of failures is taken modulo 2^32, the times of a lockout as i64.
--
-- Not modelled: the consensus itself, which is openraft's, and the network between nodes; the clients of
-- AWS and PostgreSQL, which are calls outside; the timers of the workers; and, as
-- input and output, configuration, routes and start-up. Of a method of raft that fails in the middle the
-- model gives the error without the tables, except for `purge`.
pub mod Prelude
pub mod Core
pub mod Store
pub mod Api
pub mod Raft
pub mod Service
