-- ===== src/Jobs.antt =====
-- crates/fixer-server/src/jobs and the job tables of crates/fixer-server/src/store.
pub mod State
pub mod Model
pub mod Store
pub mod Artifacts
pub mod Automation
pub mod Events
pub mod Runtime
