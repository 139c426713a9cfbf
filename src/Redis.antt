-- ===== src/Redis.antt =====
-- The state provider over Redis: package internal/plugins/providers/state/redis.
pub mod Command
pub mod Primitives
pub mod Collision
pub mod Read
pub mod ReadBack
pub mod Window
pub mod Unread
pub mod State
pub mod Scripts
pub mod DeadBuckets
pub mod Notifier
