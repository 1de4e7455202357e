-- ===== src/Std.antt =====
-- What the source uses of Rust's standard library: sorting and searching a slice.
pub mod Sort
pub mod Search
