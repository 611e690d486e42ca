-- ===== src/Backup.antt =====
-- deploy/data/backup-cluster.mjs: the cluster backup and its recovery.
pub mod Retention
pub mod Steps
pub mod Archive
pub mod Main
pub mod Protocol
pub mod Conduct
pub mod Promises
mod Tests
mod RecoveryTests
