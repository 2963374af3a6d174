-- ===== src/Sdk.antt =====
-- crates/fixer-sdk/src/output: the executor of output plans over a file system.
pub mod Fingerprint
pub mod Report
pub mod Targets
pub mod Temp
pub mod Move
pub mod Operations
pub mod Audit
pub mod Preflight
pub mod Executor
pub mod Prepare
pub mod Placement
