-- ===== src/Std.antt =====
-- What the program uses of Rust's standard library: UTF-8, decimal numbers, and the string methods.
pub mod Utf8
pub mod Decimal
pub mod Strings
