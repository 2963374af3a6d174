-- ===== src/Std.antt =====
-- What the code uses of Rust's standard library: results, text, sorting, ordered maps.
pub mod Result
pub mod Text
pub mod Decimal
pub mod Sort
pub mod Map
pub mod Path
pub mod FilePath
pub mod Fs
pub mod Action
