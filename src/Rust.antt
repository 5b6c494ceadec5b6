-- ===== src/Rust.antt =====
-- What the program uses of Rust's standard library.
pub mod Text
pub mod Result
pub mod Exec
pub mod Lock
pub mod HashMap
pub mod Words
pub mod Int
pub mod Utf8
