-- ===== src/Tests/Sessions.antt =====
-- The session store, encryption and its errors on the toy platform.
use merabriar.Prelude.{◌-◌, ◌^◌, ◌≡◌, ◌⊎◌, refl, true, arith}
use merabriar.Rust.Text.{Bytes, text}
use merabriar.Rust.Result.{ok, panic, map_err}
use merabriar.Rust.HashMap.{get-empty}
use merabriar.Rust.Utf8.{from_utf8}
use merabriar.Crypto.Session.{Session}
use merabriar.Crypto.State.{Crypto, IdentityKeys, PublicKeyBundle}
use merabriar.Crypto.State
use merabriar.Crypto.Sessions.{insert_session, init_session}
use merabriar.Crypto.Sessions.Keyed.{IsKeyed, insert_session-Touches}
use merabriar.Crypto.Sessions.Opened.{init_session-outcome}
use merabriar.Crypto.Encryption.{encrypt_message, decrypt_message}
use merabriar.Crypto.Encryption.Success.{with_session, wire}
use merabriar.Crypto.Encryption.Errors.{
  opened, decrypt_message-atomic, encrypt_message-last_counter,
}
use merabriar.Crypto.Peers.Delivery.{with_session-Holds}
use merabriar.Crypto.Peers.Handshake.{agreed}
use merabriar.Tests.Toy.{platform, kdf_laws, aead_laws}
use merabriar.Tests.Peers.{alice, bob, to_bob, from_alice, link, hello}
use merabriar.Tests.Agreement.{own_keys, signed_up, bundle}

pub init-IsKeyed : IsKeyed State.init
init-IsKeyed k session h = absurd (ground (arith, get-empty {V = Session} k))

pub link-IsKeyed : IsKeyed link.sender × IsKeyed link.receiver
unfolding insert_session
link-IsKeyed = (
  (insert_session-Touches State.init to_bob init-IsKeyed).keyed,
  (insert_session-Touches State.init from_alice init-IsKeyed).keyed,
)

abbrev sealed : Bytes
sealed = wire (kdf_laws true) (aead_laws true) to_bob hello.nonce hello.plaintext

abbrev joined : Crypto
joined = with_session bob (agreed (kdf_laws true) (own_keys 3) bob (bundle 4)) (signed_up 3).crypto

init_session-outcome_example :
    init_session (platform true) bob (bundle 4) (signed_up 3).crypto ≡ (ok tt, joined)
init_session-outcome_example =
    init_session-outcome (kdf_laws true) bob (bundle 4) (signed_up 3).crypto

decrypt_message-atomic_example :
    ((decrypt_message (platform true) alice sealed link.receiver).1 ≡ link.receiver)
    ⊎ ((plaintext : Bytes) × (opened (platform true) alice sealed link.receiver ≡ ok plaintext)
        × ((decrypt_message (platform true) alice sealed link.receiver).0
            ≡ map_err (text "Invalid UTF-8: ") (from_utf8 (platform true).utf8_error plaintext)))
decrypt_message-atomic_example = decrypt_message-atomic (platform true) alice sealed link.receiver

-- A session whose sending counter is at its last value.
abbrev worn : Session
worn = record to_bob { send_counter = 2 ^ 32 - 1 }

encrypt_message-last_counter_example :
    encrypt_message
      (platform true)
      bob
      hello.plaintext
      hello.nonce
      (with_session bob worn State.init)
    ≡ (panic, with_session bob worn State.init)
encrypt_message-last_counter_example =
    encrypt_message-last_counter (kdf_laws true) (aead_laws true) bob hello.plaintext hello.nonce
      worn (with_session bob worn State.init) (with_session-Holds bob worn State.init refl)
      (omega arith) refl (omega arith)
