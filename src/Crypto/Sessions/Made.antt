-- ===== src/Crypto/Sessions/Made.antt =====
-- The session that `init_session` of crypto/session.rs makes, before it takes the lock of the store.
use merabriar.Rust.Text.{Text, text}
use merabriar.Rust.Result.{Result, ok, ◌>>=◌, >>=-eq-ok}
use merabriar.Rust.Lock.{read}
use merabriar.Prelude.{◌≡◌}
use merabriar.Platform.{Platform}
use merabriar.Crypto.Session.{Session, new}
use merabriar.Crypto.State.{Crypto, PublicKeyBundle}
use merabriar.Crypto.Keys.{ok_or}
use merabriar.Crypto.Sessions.{try_into_32}
use merabriar.Crypto.Sessions.Keyed.{recipient-new}

module _ {Cipher KeyPair : Type 0} (p : Platform Cipher KeyPair) where
  abbrev pub new_session : Text → PublicKeyBundle → Crypto → Result Session
  new_session id keys s = read s.identity_keys >>= λ ours.
      ok_or (text "Our keys not initialized") ours >>= λ our_keys.
      try_into_32 keys.signed_prekey >>= λ their_prekey.
      new p id (p.diffie_hellman our_keys.signed_prekey_private their_prekey)

  pub recipient-new_session :
      (id : Text) (keys : PublicKeyBundle) (s : Crypto) (session : Session)
      → new_session id keys s ≡ ok session
      → session.recipient_id ≡ id
  recipient-new_session id keys s session h =
      let (ours, _, h1) = >>=-eq-ok (read s.identity_keys) _ h in
      let (our_keys, _, h2) = >>=-eq-ok (ok_or (text "Our keys not initialized") ours) _ h1 in
      let (their_prekey, _, h3) = >>=-eq-ok (try_into_32 keys.signed_prekey) _ h2 in
      recipient-new p id (p.diffie_hellman our_keys.signed_prekey_private their_prekey) session h3
