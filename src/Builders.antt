-- ===== src/Builders.antt =====
-- The builders of features: internal/plugins/builders.
pub mod Programs
pub mod Streaming
pub mod Rest
pub mod Model
