-- ===== src/Go.antt =====
-- What the program uses of Go: errors, effects, time, maps and strings.
pub mod Error
pub mod Eff
pub mod Invariant
pub mod Int
pub mod Time
pub mod Dict
pub mod Strings
