-- ===== src/Tests.antt =====
-- The theorems at concrete inputs, and runs of the definitions.
mod Data
mod Api
mod Bucket
mod Engine
mod Requests
mod Store
mod Sdk
mod Window
mod Scripts
mod System
mod Historian
mod Queue
mod Remote
mod Builders
mod Operator
mod History
mod Runtime
mod Control
