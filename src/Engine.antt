-- ===== src/Engine.antt =====
-- The engine of the core: package internal/engine.
pub mod Pipeline
pub mod Priority
pub mod World
pub mod Write
pub mod Read
pub mod Registry
pub mod Request
