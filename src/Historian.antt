-- ===== src/Historian.antt =====
-- The server of package internal/historian: its queues, and the tasks that it runs from them.
pub mod Queue
pub mod Server
pub mod Dispatch
