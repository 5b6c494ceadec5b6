-- ===== src/Crypto/Sessions/Opened.antt =====
-- When `init_session` of crypto/session.rs succeeds, and what it changes.
use merabriar.Prelude.{
  ◌≡◌, inl, inr, true, none, some, length, arith, ◌==◌, if◌then◌else◌, ite, Option-cases,
}
use merabriar.Rust.Text.{Text, text, Text_discrete}
use merabriar.Rust.Result.{ok, err}
use merabriar.Rust.Lock.{poison_text}
use merabriar.Rust.HashMap
use merabriar.Rust.HashMap.{get-insert, get-insert_self}
use merabriar.Platform.{Platform, KdfLaws}
use merabriar.Crypto.Session.Derivation.{fresh, new-fresh}
use merabriar.Crypto.State.{Crypto, PublicKeyBundle}
use merabriar.Crypto.Sessions.{init_session, has_session, try_into_32}

module _ {Cipher KeyPair : Type 0} {p : Platform Cipher KeyPair} (kdf : KdfLaws p) where
  -- The outcome of `init_session` on every branch, in the order of its checks: a poisoned key lock, no
  -- identity keys, a prekey that has not 32 bytes, a poisoned session lock. It never panics, and what fails
  -- changes nothing.
  pub init_session-outcome :
      (id : Text) (theirs : PublicKeyBundle) (s : Crypto)
      → init_session p id theirs s ≡ (
          if s.identity_keys.poisoned then (err poison_text, s) else elim s.identity_keys.value [
            | none ↦ (err (text "Our keys not initialized"), s)
            | some ours ↦
                if length theirs.signed_prekey == 32
                then (if s.sessions.poisoned then (err poison_text, s) else (
                  ok tt,
                  record s {
                    sessions = record s.sessions {
                      value =
                          HashMap.insert id
                            (fresh kdf id
                              (p.diffie_hellman ours.signed_prekey_private theirs.signed_prekey))
                            s.sessions.value;
                    };
                  },
                ))
                else (err (text "Invalid prekey length"), s)
          ])
  unfolding init_session try_into_32
  init_session-outcome id theirs s = elim (Option-cases s.identity_keys.value) [
    | inl missing ↦ ground arith
    | inr (ours, found) ↦
        ground (
          arith,
          new-fresh kdf id (p.diffie_hellman ours.signed_prekey_private theirs.signed_prekey),
        )
  ]

  -- After a successful `init_session` there is a session with the recipient, and with any other contact
  -- there is one exactly if there was one before.
  has_session-init_session :
      (id k : Text) (theirs : PublicKeyBundle) (s s' : Crypto)
      → init_session p id theirs s ≡ (ok tt, s')
      → has_session k s' ≡ (ite (Text_discrete id k) true (has_session k s))
  unfolding has_session
  has_session-init_session id k theirs s s' h = elim (Option-cases s.identity_keys.value) [
    | inl missing ↦ ground (arith, init_session-outcome id theirs s)
    | inr (ours, found) ↦
        let made =
          fresh kdf id (p.diffie_hellman ours.signed_prekey_private theirs.signed_prekey) in
        ground (arith, init_session-outcome id theirs s, get-insert id k made s.sessions.value)
  ]
