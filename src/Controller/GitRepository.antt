-- ===== src/Controller/GitRepository.antt =====
-- internal/controller/core/gitrepository_controller.go, in the order of its calls: `Base` holds the
-- struct, `Status` the list of per-target states, `Credential` resolveCredential, `Target` and
-- `Propagation` the work on the MCPs, `Deletion` the cleanup, and `Reconcile` the handler.
pub mod Base
pub mod Status
pub mod Credential
pub mod Target
pub mod Propagation
pub mod Deletion
pub mod Reconcile
pub mod Sequence
