-- ===== src/Crypto/Integration/Names.antt =====
-- The names in the tests of Integration.
use merabriar.Prelude.{◌≡◌, ◌≢◌, refl, sym, ap, true, false, arith}
use merabriar.Rust.Text.{Bytes, Text, text, Text_discrete}
use merabriar.Rust.HashMap.{get-insert_self}
use merabriar.Crypto.Session.{Session}
use merabriar.Crypto.State.{Crypto}
use merabriar.Crypto.Sessions.{has_session}
use merabriar.Crypto.Encryption.Success.{with_session}
use merabriar.Crypto.Integration.{same_bytes}

pub has_session-own :
    (id : Text) (session : Session) (s : Crypto) → has_session id (with_session id session s) ≡ true
unfolding has_session
has_session-own id session s = ground (arith, get-insert_self id session s.sessions.value)

pub same_bytes_self : (b : Bytes) → same_bytes b b ≡ true
same_bytes_self b = ground arith

apart : (a b : Text) → same_bytes a b ≡ false → a ≢ b
apart a b h e = absurd (cc (h, sym (same_bytes_self a), ap (same_bytes a) e))

-- A name that is none of those that the tests take for unknown.
abbrev pub IsFree : Text → Type 0
IsFree id = (id ≢ text "eve") × (id ≢ text "unknown_user") × (id ≢ text "nonexistent_user_12345")

pub bob-IsFree : IsFree (text "bob")
unfolding Text_discrete
bob-IsFree = (apart _ _ refl, apart _ _ refl, apart _ _ refl)

pub charlie-IsFree : IsFree (text "charlie")
unfolding Text_discrete
charlie-IsFree = (apart _ _ refl, apart _ _ refl, apart _ _ refl)

pub dave-IsFree : IsFree (text "dave")
unfolding Text_discrete
dave-IsFree = (apart _ _ refl, apart _ _ refl, apart _ _ refl)

pub all_apart :
    (text "dave" ≢ text "bob") × (text "charlie" ≢ text "bob") × (text "dave" ≢ text "charlie")
unfolding Text_discrete
all_apart = (apart _ _ refl, apart _ _ refl, apart _ _ refl)

pub encrypting-IsFree : IsFree (text "enc_empty_user")
unfolding Text_discrete
encrypting-IsFree = (apart _ _ refl, apart _ _ refl, apart _ _ refl)

pub decrypting-IsFree : IsFree (text "dec_invalid_user")
unfolding Text_discrete
decrypting-IsFree = (apart _ _ refl, apart _ _ refl, apart _ _ refl)

pub format-IsFree : IsFree (text "format_test_user")
unfolding Text_discrete
format-IsFree = (apart _ _ refl, apart _ _ refl, apart _ _ refl)

pub alice-IsFree : IsFree (text "alice")
unfolding Text_discrete
alice-IsFree = (apart _ _ refl, apart _ _ refl, apart _ _ refl)

pub produced-IsFree : IsFree (text "enc_test_user")
unfolding Text_discrete
produced-IsFree = (apart _ _ refl, apart _ _ refl, apart _ _ refl)

pub lifecycle-IsFree : IsFree (text "lifecycle_peer")
unfolding Text_discrete
lifecycle-IsFree = (apart _ _ refl, apart _ _ refl, apart _ _ refl)
