-- ===== src/Crypto/Session/Checks.antt =====
-- The unit test of crypto/session.rs, as a function that panics where an assertion fails.
use merabriar.Prelude.{◌≡◌, ◌≢◌, Bool, true, false, replicate, ite, if_neg, arith}
use merabriar.Rust.Text.{Bytes, text, Text_discrete}
use merabriar.Rust.Result.{Result, ok, assert, ◌>>=◌}
use merabriar.Platform.{Platform, KdfLaws}
use merabriar.Crypto.Session.{Session, new, derive_send_key}
use merabriar.Crypto.Session.Derivation.{
  fresh, new-fresh, message_key, after_send, derive_send_key_lem, MayStep,
}

-- `assert_ne!` of two keys
abbrev expect_ne : Bytes → Bytes → Result (Unit {0})
expect_ne a b = assert (ite (Text_discrete a b) false true)

module _ {Cipher KeyPair : Type 0} (p : Platform Cipher KeyPair) where
  unfoldable pub test_session_key_derivation : Result (Unit {0})
  test_session_key_derivation = do
    session ← new p (text "test") (replicate 32 0)
    (key1, once) ← derive_send_key p session
    (key2, twice) ← derive_send_key p once
    (key3, thrice) ← derive_send_key p twice
    expect_ne key1 key2 >>= λ _. expect_ne key2 key3 >>= λ _. expect_ne key1 key3

module _ {Cipher KeyPair : Type 0} {p : Platform Cipher KeyPair} (kdf : KdfLaws p) where
  abbrev test_session : Session
  test_session = fresh kdf (text "test") (replicate 32 0)

  abbrev next_key : Session → Bytes
  next_key s = message_key kdf s.send_chain_key s.send_counter

  -- The counter of a new session may step three times.
  steps : (checks : Bool) → MayStep checks 0 × MayStep checks 1 × MayStep checks 2
  steps true = (omega arith, omega arith, omega arith)
  steps false = (omega arith, omega arith, omega arith)

  -- The test passes if the first three message keys of its session differ.
  session_test_passes :
      let first = next_key test_session in
      let second = next_key (after_send kdf test_session) in
      let third = next_key (after_send kdf (after_send kdf test_session)) in
      first ≢ second → second ≢ third → first ≢ third → test_session_key_derivation p ≡ ok tt
  unfolding test_session_key_derivation
  session_test_passes a b c =
      let (one, two, three) = steps p.overflow_checks in
      rw (
        new-fresh kdf (text "test") (replicate 32 0),
        derive_send_key_lem kdf test_session one,
        derive_send_key_lem kdf (after_send kdf test_session) two,
        derive_send_key_lem kdf (after_send kdf (after_send kdf test_session)) three,
        if_neg (Text_discrete _ _) a false true,
        if_neg (Text_discrete _ _) b false true,
        if_neg (Text_discrete _ _) c false true,
      )
