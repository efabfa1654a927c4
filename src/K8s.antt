-- ===== src/K8s.antt =====
-- What the program uses of Kubernetes: objects, conditions, finalizers and API clients.
pub mod Meta
pub mod Client
pub mod Objects
pub mod Laws
pub mod Memory
pub mod Rbac
