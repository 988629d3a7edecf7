-- ===== src/Ruleset.antt =====
-- src/ruleset.rs: the ruleset builder.
pub mod Types
pub mod Handle
pub mod Create
pub mod Rules
pub mod Restrict
pub mod Session
