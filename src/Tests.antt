-- ===== src/Tests.antt =====
-- Concrete runs of the modelled code.
pub mod Kernel
mod Documented
mod Setting
mod Builder
mod Runs
mod Session
mod Levels
mod Promises
mod Closed
mod Paths
