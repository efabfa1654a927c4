-- ===== src/Main.antt =====
-- cmd/platform-service-gitops/main.go: `Flags` holds the flags of the two commands, `Access` the
-- permissions that are requested on the onboarding cluster, `Libraries` what the commands call, `Init`
-- and `Run` the commands, `Startup` what has happened when the manager
-- starts, and `Process` the process with its exit code.
pub mod Flags
pub mod Access
pub mod Libraries
pub mod Init
pub mod Run
pub mod Startup
pub mod Command
pub mod Process
pub mod Permissions
