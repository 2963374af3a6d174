-- ===== src/Server.antt =====
-- crates/fixer-server beside the jobs: the policy on paths, and authentication.
pub mod FsPolicy
pub mod Auth
