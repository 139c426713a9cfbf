-- ===== src/Api.antt =====
-- The shared vocabulary of the core: package api.
pub mod Errors
pub mod Primitive
pub mod Aggr
pub mod Value
pub mod Normalize
pub mod ScalarText
pub mod Descriptor
pub mod Keys
pub mod Bucket
pub mod Selector
