-- ===== src/Crypto/Session/Derivation.antt =====
-- What `Session::new` and the key derivations of crypto/session.rs compute when HKDF keeps its contract.
use merabriar.Prelude.{ℕ, ◌+◌, ◌%◌, ◌<◌, ◌≡◌, Bool, false, true, none, some, arith}
use merabriar.Rust.Text.{Bytes, Text, text}
use merabriar.Rust.Result.{ok}
use merabriar.Rust.Words.{u32_mod, inc_u32, to_be_bytes}
use merabriar.Platform.{Platform, KdfLaws}
use merabriar.Crypto.Session.{Session, new, derive_message_key, derive_send_key, derive_recv_key}

module _ {Cipher KeyPair : Type 0} {p : Platform Cipher KeyPair} (laws : KdfLaws p) where
  -- The message key and the next chain key, without the fallible calls.
  abbrev pub message_key : Bytes → ℕ → Bytes
  message_key chain counter = laws.okm (some (to_be_bytes counter)) chain (text "message_key") 32

  abbrev pub next_chain : Bytes → ℕ → Bytes
  next_chain chain counter = laws.okm (some (to_be_bytes counter)) chain (text "chain_key") 32

  -- The session of a shared secret.
  abbrev pub fresh : Text → Bytes → Session
  fresh recipient_id shared_secret = record {
    recipient_id = recipient_id;
    root_key = laws.okm none shared_secret (text "root_key") 32;
    send_chain_key = laws.okm none shared_secret (text "send_chain") 32;
    recv_chain_key = laws.okm none shared_secret (text "recv_chain") 32;
    send_counter = 0;
    recv_counter = 0;
  }

  -- The counter after a derivation, for a counter that may be incremented.
  abbrev pub next_counter : ℕ → ℕ
  next_counter n = (n + 1) % u32_mod

  abbrev pub after_send : Session → Session
  after_send s = record s {
    send_chain_key = next_chain s.send_chain_key s.send_counter;
    send_counter = next_counter s.send_counter;
  }

  abbrev pub after_recv : Session → Session
  after_recv s = record s {
    recv_chain_key = next_chain s.recv_chain_key s.recv_counter;
    recv_counter = next_counter s.recv_counter;
  }

  pub new-fresh : (id : Text) (secret : Bytes) → new p id secret ≡ ok (fresh id secret)
  unfolding new
  new-fresh id secret = ground (
    arith,
    laws.expands none secret (text "root_key") 32 (omega arith),
    laws.expands none secret (text "send_chain") 32 (omega arith),
    laws.expands none secret (text "recv_chain") 32 (omega arith),
  )

  pub derive_message_key_lem :
      (chain : Bytes) (counter : ℕ)
      → derive_message_key p chain counter
        ≡ ok (message_key chain counter, next_chain chain counter)
  unfolding derive_message_key
  derive_message_key_lem chain counter = ground (
    arith,
    laws.expands (some (to_be_bytes counter)) chain (text "message_key") 32 (omega arith),
    laws.expands (some (to_be_bytes counter)) chain (text "chain_key") 32 (omega arith),
  )

-- A counter may be incremented: it is a `u32`, and not the last one if the build checks overflow.
abbrev pub MayStep : Bool → ℕ → Type 0
MayStep true n = n + 1 < u32_mod
MayStep false n = n < u32_mod

inc_u32-MayStep :
    (checks : Bool) (n : ℕ) → MayStep checks n → inc_u32 checks n ≡ ok ((n + 1) % u32_mod)
unfolding inc_u32
inc_u32-MayStep true n h = ground arith
inc_u32-MayStep false n h = ground arith

module _ {Cipher KeyPair : Type 0} {p : Platform Cipher KeyPair} (laws : KdfLaws p) where
  pub derive_send_key_lem :
      (s : Session)
      → MayStep p.overflow_checks s.send_counter
      → derive_send_key p s
        ≡ ok (message_key laws s.send_chain_key s.send_counter, after_send laws s)
  unfolding derive_send_key
  derive_send_key_lem s h = ground (
    arith,
    derive_message_key_lem laws s.send_chain_key s.send_counter,
    inc_u32-MayStep p.overflow_checks s.send_counter h,
  )

  pub derive_recv_key_lem :
      (s : Session)
      → MayStep p.overflow_checks s.recv_counter
      → derive_recv_key p s
        ≡ ok (message_key laws s.recv_chain_key s.recv_counter, after_recv laws s)
  unfolding derive_recv_key
  derive_recv_key_lem s h = ground (
    arith,
    derive_message_key_lem laws s.recv_chain_key s.recv_counter,
    inc_u32-MayStep p.overflow_checks s.recv_counter h,
  )
