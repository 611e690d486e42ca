-- ===== src/Backup/Conduct.antt =====
-- How the script of deploy/data/backup-cluster.mjs keeps to the protocol: the assertions at its
-- program points and the rule for a call.
pub mod Points
pub mod Recovery
pub mod Rules
pub mod Stopping
pub mod Databases
pub mod Saving
pub mod Retiring
pub mod Ending
pub mod Whole
pub mod Unsure
pub mod Founded
pub mod Recovering
