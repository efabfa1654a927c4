-- ===== src/Tests.antt =====
-- Runs of the operations on a world in memory.
pub mod Clusters
pub mod World
pub mod Propagate
pub mod Credentials
pub mod GitRepository
pub mod Access
pub mod AccessRequests
pub mod Github
pub mod Reporting
pub mod Sequence
pub mod Program
pub mod DeepCopy
pub mod Deletion
pub mod Startup
pub mod Process
pub mod Permissions
pub mod Kustomization
