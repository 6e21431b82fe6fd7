-- ===== src/Std.antt =====
-- What the source uses of Rust's standard library on integers, texts and paths.
pub mod LeBytes
pub mod Utf8
pub mod Str
pub mod Slice
pub mod Path
