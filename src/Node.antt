-- ===== src/Node.antt =====
-- soundgate/src/main.rs: the gate server with its write-ahead log. The log is a list of records;
-- a record is in the log when the reply to its request is sent, so the append and the request are
-- one step. Requests are handled one after another, in the order in which they take the lock.
pub mod Defs
pub mod Auth
pub mod Bytes
pub mod Rebuilds
pub mod Invariant
pub mod Phases
pub mod Safe
