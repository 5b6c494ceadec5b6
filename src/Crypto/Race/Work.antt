-- ===== src/Crypto/Race/Work.antt =====
-- The two halves of a call, and what the second does to a healthy store.
use merabriar.Prelude.{◌≡◌, refl, [], false, ◌++◌, take, drop, arith}
use merabriar.Rust.Text.{Bytes, text}
use merabriar.Rust.Result.{
  Result, ok, err, panic, map_err, is_ok, is_err, is_panic, Result-cases, ◌>>=◌, >>=-eq-ok,
}
use merabriar.Rust.Exec.{Exec}
use merabriar.Rust.Utf8.{from_utf8}
use merabriar.Platform.{Platform}
use merabriar.Crypto.Session.{Session, derive_send_key, derive_recv_key}
use merabriar.Crypto.State.{Crypto}
use merabriar.Crypto.Sessions.Keyed.{
  recipient-derive_send_key, recipient-derive_recv_key, state-get_session_mut,
}
use merabriar.Crypto.Sessions.{update_session, init_session}
use merabriar.Crypto.Sessions.Made.{new_session}
use merabriar.Crypto.Encryption.{encrypt_message, decrypt_message, decrypt_checked}
use merabriar.Crypto.Encryption.Success.{with_session, update_session-healthy}
use merabriar.Crypto.Race.{
  Request, sending, receiving, opening, contact, holding, returned, resume, begin, call, finish,
}

-- `init_session` holds a session of its contact.
abbrev pub IsOwn : Session → Request → Type 0
IsOwn session (sending id plaintext nonce) = Unit
IsOwn session (receiving id ciphertext) = Unit
IsOwn session (opening id theirs) = session.recipient_id ≡ id

pub contact-IsOwn :
    (session : Session) (r : Request) → session.recipient_id ≡ contact r → IsOwn session r
contact-IsOwn session (sending id plaintext nonce) e = tt
contact-IsOwn session (receiving id ciphertext) e = tt
contact-IsOwn session (opening id theirs) e = e

module _ {Cipher KeyPair : Type 0} (p : Platform Cipher KeyPair) where
  -- The local work of the second half: what it makes of the copy, and the bytes for the reply.
  abbrev pub work : Session → Request → Result (Bytes × Session)
  work session (sending id plaintext nonce) = do
    derived ← derive_send_key p session
    cipher ← map_err (text "Failed to create cipher: ") (p.new_from_slice derived.0)
    ciphertext ← map_err (text "Encryption failed: ") (p.encrypt cipher nonce plaintext)
    ok (nonce ++ ciphertext, derived.1)
  work session (receiving id ciphertext) = do
    derived ← derive_recv_key p session
    cipher ← map_err (text "Failed to create cipher: ") (p.new_from_slice derived.0)
    plaintext ←
        map_err (text "Decryption failed: ")
          (p.decrypt cipher (take 12 ciphertext) (drop 12 ciphertext))
    ok (plaintext, derived.1)
  work session (opening id theirs) = ok ([], session)

  abbrev pub reply : Request → Bytes → Result Bytes
  reply (sending id plaintext nonce) bytes = ok bytes
  reply (receiving id ciphertext) bytes =
      map_err (text "Invalid UTF-8: ") (from_utf8 p.utf8_error bytes)
  reply (opening id theirs) bytes = ok bytes

  abbrev pub settle : Request → Result (Bytes × Session) → Exec Crypto Bytes
  settle r (ok done) s = (reply r done.0, with_session done.1.recipient_id done.1 s)
  settle r (err e) s = (err e, s)
  settle r panic s = (panic, s)

  pub finish-settle :
      (session : Session) (r : Request) (s : Crypto)
      → IsOwn session r
      → s.sessions.poisoned ≡ false
      → finish p session r s ≡ settle r (work session r) s
  unfolding finish update_session
  finish-settle session (sending id plaintext nonce) s own healthy =
      elim (Result-cases (work session (sending id plaintext nonce))) [
        | is_ok done e ↦
            ground (arith, update_session-healthy done.1.recipient_id done.1 s healthy refl)
        | is_err t e ↦ ground arith
        | is_panic e ↦ ground arith
      ]
  finish-settle session (receiving id ciphertext) s own healthy =
      elim (Result-cases (work session (receiving id ciphertext))) [
        | is_ok done e ↦
            ground (arith, update_session-healthy done.1.recipient_id done.1 s healthy refl)
        | is_err t e ↦ ground arith
        | is_panic e ↦ ground arith
      ]
  finish-settle session (opening id theirs) s own healthy =
      ground (arith, update_session-healthy session.recipient_id session s healthy refl)

  pub recipient-work :
      (session : Session) (r : Request) (done : Bytes × Session)
      → work session r ≡ ok done
      → done.1.recipient_id ≡ session.recipient_id
  recipient-work session (sending id plaintext nonce) done h =
      let (derived, d, h₁) = >>=-eq-ok (derive_send_key p session) _ h in
      let (cipher, _, h₂) =
        >>=-eq-ok (map_err (text "Failed to create cipher: ") (p.new_from_slice derived.0)) _ h₁ in
      let (_, _, h₃) =
        >>=-eq-ok (map_err (text "Encryption failed: ") (p.encrypt cipher nonce plaintext)) _ h₂ in
      cc (h₃, recipient-derive_send_key p session derived d)
  recipient-work session (receiving id ciphertext) done h =
      let (derived, d, h₁) = >>=-eq-ok (derive_recv_key p session) _ h in
      let (cipher, _, h₂) =
        >>=-eq-ok (map_err (text "Failed to create cipher: ") (p.new_from_slice derived.0)) _ h₁ in
      let (_, _, h₃) =
        >>=-eq-ok
          (map_err (text "Decryption failed: ")
            (p.decrypt cipher (take 12 ciphertext) (drop 12 ciphertext)))
          _ h₂ in
      cc (h₃, recipient-derive_recv_key p session derived d)
  recipient-work session (opening id theirs) done h = cc h

  -- A call that is not interrupted is its two halves in a row.
  pub call-held :
      (r : Request) (session : Session) (s : Crypto)
      → begin p r s ≡ holding session r
      → call p r s ≡ finish p session r s
  unfolding begin resume init_session finish encrypt_message decrypt_message decrypt_checked
  call-held (sending id plaintext nonce) session s h = ground (arith, state-get_session_mut id s)
  call-held (receiving id ciphertext) session s h = ground (arith, state-get_session_mut id s)
  call-held (opening id theirs) session s h = elim (Result-cases (new_session p id theirs s)) [
    | is_ok made e ↦ ground arith
    | is_err t e ↦ ground arith
    | is_panic e ↦ ground arith
  ]

  -- A call that returns at once changes nothing.
  pub call-returned :
      (r : Request) (x : Result Bytes) (s : Crypto) → begin p r s ≡ returned x → call p r s ≡ (x, s)
  unfolding begin resume init_session encrypt_message decrypt_message decrypt_checked
  call-returned (sending id plaintext nonce) x s h = ground (arith, state-get_session_mut id s)
  call-returned (receiving id ciphertext) x s h = ground (arith, state-get_session_mut id s)
  call-returned (opening id theirs) x s h = elim (Result-cases (new_session p id theirs s)) [
    | is_ok made e ↦ ground arith
    | is_err t e ↦ ground arith
    | is_panic e ↦ ground arith
  ]
