-- ===== src/Cluster.antt =====
-- deploy/data/cluster-api.mjs: the Kubernetes client of the backup tools, and the documents that it
-- exchanges.
pub mod Clock
pub mod Http
pub mod Sample
mod Tests
pub mod Paths
pub mod Documents
pub mod Request
pub mod Wait
pub mod Resume
