-- ===== src/Runtime.antt =====
-- The runtimes of programs and the deployments that hold them: pkg/runtimemanager and pkg/runner.
pub mod Pods
pub mod Discovery
pub mod Manager
pub mod Runner
