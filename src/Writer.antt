-- ===== src/Writer.antt =====
-- crates/fixer-writer-local: where and what the local writers write.
pub mod PathTemplate
