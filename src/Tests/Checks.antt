-- ===== src/Tests/Checks.antt =====
-- The repository's unit tests on the toy platform.
use merabriar.Prelude.{◌≡◌, ◌≢◌, refl, ap, true, false, List, [], ◌∷◌, arith}
use merabriar.Rust.Text.{Bytes, text, contains, Text_discrete}
use merabriar.Rust.Result.{ok, err}
use merabriar.Rust.Int.{pos}
use merabriar.Rust.Words.{to_be_bytes}
use merabriar.Crypto.State
use merabriar.Crypto.State.{Crypto}
use merabriar.Crypto.Session.Derivation.{message_key}
use merabriar.Crypto.Sessions.Keyed.{IsKeyed}
use merabriar.Crypto.Encryption.{encrypt_message, decrypt_message}
use merabriar.Crypto.Encryption.Checks.{test_session, setup_test_session, self_refused}
use merabriar.Sync
use merabriar.Sync.Calls.{Call, queue, clear, increment, run}
use merabriar.Sync.Checks.{
  msg2, put_first, expect_first, put_second, clear_second, expect_cleared, test_queue_message,
  test_clear_queue, queue_tests_pass,
}
use merabriar.Tests.Toy.{platform, kdf_laws, aead_laws, aead_rejects, sum}
use merabriar.Tests.Peers.{hello}

chains_differ :
    message_key (kdf_laws true) (test_session (kdf_laws true) (aead_laws true)).send_chain_key 0
    ≢ message_key (kdf_laws true) (test_session (kdf_laws true) (aead_laws true)).recv_chain_key 0
unfolding to_be_bytes
chains_differ e = absurd (omega (arith, ap sum e))

self_refused_example :
    let ready = setup_test_session (platform true) State.init in
    (ready.0 ≡ ok tt)
    × (¬ IsKeyed ready.1)
    × (sealed : Bytes) × (t : Crypto) × (encrypt_message
          (platform true)
          (text "test_user")
          hello.plaintext
          hello.nonce
          ready.1
        ≡ (ok sealed, t))
    × (decrypt_message (platform true) (text "self") sealed t
        ≡ (err (text "Decryption failed: aead::Error"), t))
self_refused_example =
    self_refused (kdf_laws true) (aead_laws true) (aead_rejects true) hello.nonce hello.plaintext
      State.init refl refl (omega arith) chains_differ

abbrev others : List Call
others = increment (text "msg1") ∷ queue (msg2 (pos 9)) ∷ clear (text "msg2" ∷ []) ∷ []

queue_tests_pass_example :
    ((test_queue_message (pos 7) Sync.empty).0 ≡ ok tt)
    × ((test_clear_queue (pos 7) Sync.empty).0 ≡ ok tt)
    × ((expect_first (run false others (put_first (pos 7) Sync.empty).1)).0 ≡ ok tt)
    × (let u = run false others (put_second (pos 7) Sync.empty).1 in
        ((clear_second u).0 ≡ ok tt)
        × ((expect_cleared (run false others (clear_second u).1)).0 ≡ ok tt))
unfolding contains Text_discrete Sync.new
queue_tests_pass_example = queue_tests_pass (pos 7) others others others Sync.empty refl refl refl
