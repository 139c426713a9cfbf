-- ===== src/Operator.antt =====
-- The operator of the cluster: internal/operator.
pub mod Webhook
pub mod Controllers
pub mod Features
