-- ===== src/Fs.antt =====
-- src/fs.rs: the access rights for files, and the rules for file hierarchies.
pub mod Rights
pub mod File
pub mod PathBeneath
