-- ===== src/Message/Checks.antt =====
-- The unit tests of message/mod.rs, as functions that panic where an assertion fails.
use merabriar.Prelude.{ℕ, ◌≡◌, refl, true, false, ite, ◌==◌, arith}
use merabriar.Rust.Text.{text, Text_discrete}
use merabriar.Rust.Int.{ℤ}
use merabriar.Rust.Result.{Result, ok, assert, ◌>>=◌}
use merabriar.Message.{
  MessageStatus, pending, sent, delivered, read, failed, new, from_str, from_lower, to_lowercase,
  to_lower,
}

abbrev rank : MessageStatus → ℕ
rank pending = 0
rank sent = 1
rank delivered = 2
rank read = 3
rank failed = 4

-- `assert_eq!` of two statuses, with the derived `PartialEq`
abbrev expect : MessageStatus → MessageStatus → Result (Unit {0})
expect a b = assert (rank a == rank b)

-- at the time `now`
unfoldable pub test_message_creation : ℤ → Result (Unit {0})
test_message_creation now =
    let msg = new now (text "msg1") (text "conv1") (text "sender1") (text "Hello!") in
    assert (ite (Text_discrete msg.id (text "msg1")) true false) >>= λ _. expect msg.status pending

unfoldable pub test_status_conversion : Result (Unit {0})
test_status_conversion = expect (from_str (text "pending")) pending >>= λ _.
    expect (from_str (text "sent")) sent >>= λ _.
    expect (from_str (text "delivered")) delivered >>= λ _. expect (from_str (text "read")) read

-- Both tests pass, at whatever time.
message_tests_pass :
    (now : ℤ) → (test_message_creation now ≡ ok tt) × (test_status_conversion ≡ ok tt)
unfolding test_message_creation test_status_conversion new from_str from_lower to_lowercase to_lower
    Text_discrete
message_tests_pass now = (ground arith, refl)
