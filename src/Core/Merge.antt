-- ===== src/Core/Merge.antt =====
-- crates/fixer-core/src/merge: the provider precedence of policy.rs, the provenance of
-- provenance.rs, and the merge helpers and the movie merger of merge/mod.rs.
pub mod Policy
pub mod Precedence
pub mod Provenance
pub mod Unique
pub mod Kept
pub mod First
pub mod Localized
pub mod Movie
