-- ===== src/Crypto/Session.antt =====
-- crypto/session.rs: `Session` and its key derivation.
pub mod Derivation
pub mod Checks
use merabriar.Prelude.{ℕ, none, some}
use merabriar.Rust.Text.{Bytes, Text, text}
use merabriar.Rust.Result.{Result, ok, unwrap, ◌>>=◌}
use merabriar.Rust.Words.{inc_u32, to_be_bytes}
use merabriar.Platform.{Platform}

pub record Session : Type 0 where
  pub recipient_id : Text
  pub root_key : Bytes
  pub send_chain_key : Bytes
  pub recv_chain_key : Bytes
  pub send_counter : ℕ
  pub recv_counter : ℕ

module _ {Cipher KeyPair : Type 0} (p : Platform Cipher KeyPair) where
  -- `Session::new`
  unfoldable pub new : Text → Bytes → Result Session
  new recipient_id shared_secret = do
    root_key ← unwrap (p.expand none shared_secret (text "root_key") 32)
    send_chain ← unwrap (p.expand none shared_secret (text "send_chain") 32)
    recv_chain ← unwrap (p.expand none shared_secret (text "recv_chain") 32)
    ok (record {
      recipient_id = recipient_id;
      root_key = root_key;
      send_chain_key = send_chain;
      recv_chain_key = recv_chain;
      send_counter = 0;
      recv_counter = 0;
    })

  -- The message key, and the chain key that replaces `chain_key`.
  unfoldable pub derive_message_key : Bytes → ℕ → Result (Bytes × Bytes)
  derive_message_key chain_key counter = do
    let salt = some (to_be_bytes counter)
    message_key ← unwrap (p.expand salt chain_key (text "message_key") 32)
    new_chain_key ← unwrap (p.expand salt chain_key (text "chain_key") 32)
    ok (message_key, new_chain_key)

  unfoldable pub derive_send_key : Session → Result (Bytes × Session)
  derive_send_key s = do
    keys ← derive_message_key s.send_chain_key s.send_counter
    counter ← inc_u32 p.overflow_checks s.send_counter
    ok (keys.0, record s { send_chain_key = keys.1; send_counter = counter })

  unfoldable pub derive_recv_key : Session → Result (Bytes × Session)
  derive_recv_key s = do
    keys ← derive_message_key s.recv_chain_key s.recv_counter
    counter ← inc_u32 p.overflow_checks s.recv_counter
    ok (keys.0, record s { recv_chain_key = keys.1; recv_counter = counter })
