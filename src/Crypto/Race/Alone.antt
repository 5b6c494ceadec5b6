-- ===== src/Crypto/Race/Alone.antt =====
-- The calls of Race when none overlaps: what each may do to the state of crypto/mod.rs.
use merabriar.Prelude.{◌≡◌, subst}
use merabriar.Rust.Text.{Text}
use merabriar.Rust.Result.{is_ok, is_err, is_panic, Result-cases}
use merabriar.Platform.{Platform}
use merabriar.Crypto.State.{Crypto, PublicKeyBundle}
use merabriar.Crypto.Sessions.{init_session}
use merabriar.Crypto.Sessions.Keyed.{IsKeyed, Touches}
use merabriar.Crypto.Sessions.Touched.{
  encrypt_message-Touches, decrypt_message-Touches, init_session-Touches,
}
use merabriar.Crypto.Race.{Request, sending, receiving, opening, contact, call}

module _ {Cipher KeyPair : Type 0} (p : Platform Cipher KeyPair) where
  state-opening :
      (id : Text) (theirs : PublicKeyBundle) (s : Crypto)
      → (init_session p id theirs s).1 ≡ (call p (opening id theirs) s).1
  state-opening id theirs s = elim (Result-cases (init_session p id theirs s).0) [
    | is_ok _ e ↦ rw e
    | is_err _ e ↦ rw e
    | is_panic e ↦ rw e
  ]

  -- In a store where every session stands under its own recipient, `encrypt_message`, `decrypt_message` and
  -- `init_session` keep that, drop no session, and leave the sessions of all but their contact, the identity keys
  -- and the poisoning as they were, whatever they return.
  pub call-Touches : (r : Request) (s : Crypto) → IsKeyed s → Touches (contact r) s (call p r s).1
  call-Touches (sending id plaintext nonce) s keyed =
      encrypt_message-Touches p id plaintext nonce s keyed
  call-Touches (receiving id ciphertext) s keyed = decrypt_message-Touches p id ciphertext s keyed
  call-Touches (opening id theirs) s keyed =
      subst (Touches id s) (state-opening id theirs s) (init_session-Touches p id theirs s keyed)
