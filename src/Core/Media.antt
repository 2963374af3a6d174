-- ===== src/Core/Media.antt =====
-- crates/fixer-core/src/media: the value objects of the media domains.
pub mod Common
pub mod Parts
pub mod Movie
pub mod Assets
pub mod Television
pub mod Music
pub mod Calendar
pub mod Isbn
pub mod CheckDigit
