-- ===== src/Std.antt =====
-- What the program uses of Rust's `core` on slices and texts. A `str` is the list of its code points.
pub mod Slice
pub mod Utf8
pub mod Str
pub mod Decimal
