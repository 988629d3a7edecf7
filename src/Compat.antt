-- ===== src/Compat.antt =====
-- src/compat.rs: the kernel's ABI, the compatibility levels and states, and `TryCompat`.
pub mod Abi
pub mod Level
pub mod State
pub mod TryCompat
