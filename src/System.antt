-- ===== src/System.antt =====
-- The engine (internal/engine) over the state provider for Redis
-- (internal/plugins/providers/state/redis).
pub mod ReadYourWrite
