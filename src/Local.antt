-- ===== src/Local.antt =====
-- deploy/data/backup.mjs: the backup of the databases on the operator's machine, and its rehearsal.
pub mod Places
pub mod Requests
pub mod Saving
pub mod Restoring
pub mod Main
pub mod Trust
pub mod Finding
pub mod Stopping
pub mod Rehearsing
pub mod Growth
pub mod Ends
pub mod Whole
pub mod Promises
pub mod Accepted
mod Machine
mod Tests
mod RehearsalTests
