-- ===== src/Crypto.antt =====
-- rust_core/src/crypto: identity keys, sessions with their chain keys, and message encryption.
pub mod Session
pub mod State
pub mod Keys
pub mod Sessions
pub mod Encryption
pub mod Peers
pub mod Locks
pub mod Race
pub mod Integration
