-- ===== src/Crypto/Peers.antt =====
-- Messages between engines (crypto/encryption.rs): what is sent, and room in the counters.
pub mod Chain
pub mod Delivery
pub mod Receiving
pub mod Handshake
pub mod Talk
pub mod Disorder
use merabriar.Prelude.{ℕ, ◌+◌, ◌<◌, ◌≤◌, ◌≡◌, Bool, true, false, List, [], ◌∷◌, length}
use merabriar.Rust.Text.{Bytes, Text}
use merabriar.Rust.Result.{Result, ok}
use merabriar.Rust.Exec.{Exec, continue}
use merabriar.Rust.Utf8.{is_utf8}
use merabriar.Rust.Words.{u32_mod}
use merabriar.Platform.{Platform, max_plaintext}
use merabriar.Crypto.Session.{Session}
use merabriar.Crypto.State.{Crypto}
use merabriar.Crypto.Encryption.{encrypt_message, decrypt_message}

-- A text to send, with the nonce that the random generator gives.
pub record Outgoing : Type 0 where
  pub plaintext : Text
  pub nonce : Bytes

-- What `encrypt_message` can send: a nonce of 12 bytes, a plaintext within the limit of AES-GCM that is, as
-- every `String` is, well-formed UTF-8.
pub record IsSendable (m : Outgoing) : Type 0 where
  pub nonce12 : length m.nonce ≡ 12
  pub fits : length m.plaintext ≤ max_plaintext
  pub utf8 : is_utf8 m.plaintext ≡ true

-- `n` more messages do not take a counter beyond what the build can count: with overflow checks it stays
-- below 2^32, without them it wraps.
abbrev pub Room : Bool → ℕ → ℕ → Type 0
Room true counter n = counter + n < u32_mod
Room false counter n = counter < u32_mod
