-- ===== src/DeepCopy.antt =====
-- api/core/v1alpha1/zz_generated.deepcopy.go and api/github/v1alpha1/zz_generated.deepcopy.go, over
-- the memory of the process. Everywhere else an object is a value, and its copies are the value
-- itself; here pointers, slices and maps are addresses of cells.
pub mod Memory
pub mod Copier
pub mod Shapes
pub mod Laws
pub mod Elements
pub mod Pointers
pub mod Meta
pub mod Core
pub mod Github
pub mod Objects
