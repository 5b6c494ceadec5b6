-- ===== src/Bridge.antt =====
-- rust_core/src/frb_generated.rs: the bridge between Flutter and api.rs.
pub mod Sse
pub mod Cst
pub mod Dart
pub mod Wire
pub mod Io
pub mod Web
pub mod Calls
pub mod Delivery
