-- ===== src/Core.antt =====
-- crates/fixer-core: the domain model, without I/O.
pub mod Error
pub mod Identity
pub mod Locale
pub mod Matching
pub mod Media
pub mod Merge
pub mod Output
pub mod Scrape
