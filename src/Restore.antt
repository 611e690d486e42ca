-- ===== src/Restore.antt =====
-- deploy/data/restore-cluster.mjs: the rehearsal of a restore in a namespace of its own.
pub mod Requests
pub mod Checks
pub mod Loading
pub mod Main
pub mod Trust
pub mod Conduct
pub mod Volume
pub mod Whole
pub mod Promises
mod Tests
