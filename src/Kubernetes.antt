-- ===== src/Kubernetes.antt =====
-- deploy/data/kubernetes.mjs: the Secrets of an environment in the cluster, and the CQL security Job.
pub mod Requests
pub mod Secrets
pub mod Jobs
pub mod Main
pub mod Trust
pub mod Tidy
pub mod Ends
pub mod Checking
pub mod Copying
pub mod Adding
pub mod Whole
pub mod Promises
mod Sample
mod Tests
