-- ===== src/Crypto/Sessions/Touched.antt =====
-- Which sessions `init_session`, `encrypt_message` and `decrypt_message` change.
use merabriar.Prelude.{◌≡◌, ◌+◌, ltb, length, Bool-cases, ◌⊎◌, inl, inr, arith}
use merabriar.Rust.Text.{Bytes, Text}
use merabriar.Rust.Result.{Result, ok, is_ok, is_err, is_panic, Result-cases, ◌>>=◌, >>=-eq-ok}
use merabriar.Platform.{Platform}
use merabriar.Crypto.Session.{Session, derive_send_key, derive_recv_key}
use merabriar.Crypto.State.{Crypto, PublicKeyBundle}
use merabriar.Crypto.Sessions.{get_session_mut, update_session, init_session}
use merabriar.Crypto.Sessions.Made.{new_session, recipient-new_session}
use merabriar.Crypto.Encryption.{encrypt_message, decrypt_message, decrypt_checked}
use merabriar.Crypto.Sessions.Keyed.{
  IsKeyed, Touches, Touches-refl, Change, same, stored, Change-Touches, recipient-get_session_mut,
  state-get_session_mut, recipient-derive_send_key, recipient-derive_recv_key,
}

module _ {Cipher KeyPair : Type 0} (p : Platform Cipher KeyPair) where
  -- The first two links of `encrypt_message` and of `decrypt_message`.
  abbrev obtain :
      (Session → Result (Bytes × Session)) → Text → Crypto → Result (Session × Bytes × Session)
  obtain derive id s =
      (get_session_mut id s).0 >>= λ session. derive session >>= λ r. ok (session, r.0, r.1)

  obtained :
      (derive : Session → Result (Bytes × Session))
      → ((session : Session) (r : Bytes × Session)
          → derive session ≡ ok r
          → r.1.recipient_id ≡ session.recipient_id)
      → (id : Text) (s : Crypto) (t : Session × Bytes × Session) → IsKeyed s
      → obtain derive id s ≡ ok t
      → t.2.recipient_id ≡ id
  obtained derive owner id s t keyed h =
      let (session, found, rest) = >>=-eq-ok (get_session_mut id s).0 _ h in
      let (r, derived, e) = >>=-eq-ok (derive session) _ rest in
      cc (e, owner session r derived, recipient-get_session_mut id s session keyed found)

  encrypt_message-Change :
      (id plaintext : Text) (nonce : Bytes) (s : Crypto)
      → IsKeyed s
      → Change id s (encrypt_message p id plaintext nonce s).1
  unfolding encrypt_message
  encrypt_message-Change id plaintext nonce s keyed =
      elim (Result-cases (obtain (derive_send_key p) id s)) [
        | is_ok t e ↦ elim (state t e) [
          | inl unchanged ↦ same unchanged
          | inr kept ↦
              stored t.2 (obtained (derive_send_key p) (recipient-derive_send_key p) id s t keyed e)
                kept
        ]
        | is_err _ e ↦ same (ground (arith, state-get_session_mut id s))
        | is_panic e ↦ same (ground (arith, state-get_session_mut id s))
      ]
    where
      state :
          (t : Session × Bytes × Session)
          → obtain (derive_send_key p) id s ≡ ok t
          → ((encrypt_message p id plaintext nonce s).1 ≡ s)
            ⊎ ((encrypt_message p id plaintext nonce s).1 ≡ (update_session t.2 s).1)
      state t e = ground (arith, state-get_session_mut id s)

  decrypt_checked-Change :
      (id : Text) (ciphertext : Bytes) (s : Crypto)
      → IsKeyed s
      → Change id s (decrypt_checked p id ciphertext s).1
  unfolding decrypt_checked
  decrypt_checked-Change id ciphertext s keyed =
      elim (Result-cases (obtain (derive_recv_key p) id s)) [
        | is_ok t e ↦ elim (state t e) [
          | inl unchanged ↦ same unchanged
          | inr kept ↦
              stored t.2 (obtained (derive_recv_key p) (recipient-derive_recv_key p) id s t keyed e)
                kept
        ]
        | is_err _ e ↦ same (ground (arith, state-get_session_mut id s))
        | is_panic e ↦ same (ground (arith, state-get_session_mut id s))
      ]
    where
      state :
          (t : Session × Bytes × Session)
          → obtain (derive_recv_key p) id s ≡ ok t
          → ((decrypt_checked p id ciphertext s).1 ≡ s)
            ⊎ ((decrypt_checked p id ciphertext s).1 ≡ (update_session t.2 s).1)
      state t e = ground (arith, state-get_session_mut id s)

  -- In a store where every session stands under its own recipient `encrypt_message` keeps that, drops no session, and
  -- leaves the sessions of all but its recipient, the identity keys and the poisoning as they were, whatever it returns.
  pub encrypt_message-Touches :
      (id plaintext : Text) (nonce : Bytes) (s : Crypto)
      → IsKeyed s
      → Touches id s (encrypt_message p id plaintext nonce s).1
  encrypt_message-Touches id plaintext nonce s keyed =
      Change-Touches keyed (encrypt_message-Change id plaintext nonce s keyed)

  -- In a store where every session stands under its own recipient `decrypt_message` keeps that, drops no session, and
  -- leaves the sessions of all but the sender, the identity keys and the poisoning as they were, whatever it returns.
  pub decrypt_message-Touches :
      (id : Text) (ciphertext : Bytes) (s : Crypto)
      → IsKeyed s
      → Touches id s (decrypt_message p id ciphertext s).1
  unfolding decrypt_message
  decrypt_message-Touches id ciphertext s keyed =
      elim (Bool-cases (ltb (length ciphertext) (12 + 16))) [
        | inl short ↦ rw short (Touches-refl id keyed)
        | inr long ↦ rw long (Change-Touches keyed (decrypt_checked-Change id ciphertext s keyed))
      ]

  init_session-Change :
      (id : Text) (keys : PublicKeyBundle) (s : Crypto) → Change id s (init_session p id keys s).1
  unfolding init_session
  init_session-Change id keys s = elim (Result-cases (new_session p id keys s)) [
    | is_ok session e ↦
        let owner = recipient-new_session p id keys s session e in
        stored session owner (stores session e owner)
    | is_err _ e ↦ same (ground arith)
    | is_panic e ↦ same (ground arith)
  ]
    where
      stores :
          (session : Session)
          → new_session p id keys s ≡ ok session
          → session.recipient_id ≡ id
          → (init_session p id keys s).1 ≡ (update_session session s).1
      stores session e owner = unfold update_session in rw owner (ground arith)

  -- In a store where every session stands under its own recipient `init_session` keeps that, drops no session, and
  -- leaves the sessions of all but its recipient, the identity keys and the poisoning as they were, whatever it returns.
  pub init_session-Touches :
      (id : Text) (keys : PublicKeyBundle) (s : Crypto)
      → IsKeyed s
      → Touches id s (init_session p id keys s).1
  init_session-Touches id keys s keyed = Change-Touches keyed (init_session-Change id keys s)
