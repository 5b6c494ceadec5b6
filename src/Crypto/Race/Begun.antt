-- ===== src/Crypto/Race/Begun.antt =====
-- The first half of an overlapping call.
use merabriar.Prelude.{◌+◌, ◌⊎◌, ltb, length, ◌≡◌, Option, refl, false, inl, inr, Bool-cases, arith}
use merabriar.Rust.Text.{Bytes, Text, text}
use merabriar.Rust.Result.{Result, ok, err, panic, is_ok, is_err, is_panic, Result-cases}
use merabriar.Rust.HashMap
use merabriar.Rust.HashMap.{get-insert}
use merabriar.Platform.{Platform}
use merabriar.Crypto.Session.{Session}
use merabriar.Crypto.Sessions.Made.{new_session, recipient-new_session}
use merabriar.Crypto.State.{Crypto}
use merabriar.Crypto.Sessions.{get_session_mut}
use merabriar.Crypto.Sessions.Keyed.{IsKeyed, recipient-get_session_mut}
use merabriar.Crypto.Race.{
  Request, sending, receiving, opening, contact, holding, returned, resume, begin,
}

abbrev pub session_of : Text → Crypto → Option Session
session_of k s = HashMap.get k s.sessions.value

resume-begun :
    (o : Result Session) (r : Request)
    → ((session : Session) × (resume o r ≡ holding session r))
      ⊎ ((x : Result Bytes) × (resume o r ≡ returned x))
unfolding resume
resume-begun (ok session) r = inl (session, refl)
resume-begun (err e) r = inr (err e, refl)
resume-begun panic r = inr (panic, refl)

module _ {Cipher KeyPair : Type 0} (p : Platform Cipher KeyPair) where
  -- The first half looks at the identity keys and the session of the contact.
  pub begin-local :
      (r : Request) (s t : Crypto)
      → s.sessions.poisoned ≡ false
      → t.sessions.poisoned ≡ false
      → s.identity_keys ≡ t.identity_keys
      → session_of (contact r) s ≡ session_of (contact r) t
      → begin p r s ≡ begin p r t
  unfolding begin get_session_mut
  begin-local (sending id plaintext nonce) s t hs ht keys e = ground arith
  begin-local (receiving id ciphertext) s t hs ht keys e = ground arith
  begin-local (opening id theirs) s t hs ht keys e = rw keys

  pub begin-owner :
      (r : Request) (s : Crypto) (session : Session) (r' : Request)
      → IsKeyed s
      → begin p r s ≡ holding session r'
      → (session.recipient_id ≡ contact r) × (r' ≡ r)
  unfolding begin resume
  begin-owner (sending id plaintext nonce) s session r' keyed h =
      (ground (arith, recipient-get_session_mut id s session keyed), ground arith)
  begin-owner (receiving id ciphertext) s session r' keyed h =
      (ground (arith, recipient-get_session_mut id s session keyed), ground arith)
  begin-owner (opening id theirs) s session r' keyed h =
      elim (Result-cases (new_session p id theirs s)) [
        | is_ok made e ↦ (ground (arith, recipient-new_session p id theirs s made e), ground arith)
        | is_err t e ↦ absurd (ground arith)
        | is_panic e ↦ absurd (ground arith)
      ]

  -- A first half leads to a copy or to a reply.
  pub data Begun (r : Request) (s : Crypto) : Type 0 where
    kept : (session : Session) → begin p r s ≡ holding session r → Begun r s
    over : (x : Result Bytes) → begin p r s ≡ returned x → Begun r s

  pub begun : (r : Request) (s : Crypto) → Begun r s
  unfolding begin
  begun (sending id plaintext nonce) s =
      elim (resume-begun (get_session_mut id s).0 (sending id plaintext nonce)) [
        | inl (session, e) ↦ kept session e
        | inr (x, e) ↦ over x e
      ]
  begun (receiving id ciphertext) s = elim (Bool-cases (ltb (length ciphertext) (12 + 16))) [
    | inl short ↦ over (err (text "Ciphertext too short")) (ground arith)
    | inr long ↦ elim (resume-begun (get_session_mut id s).0 (receiving id ciphertext)) [
      | inl (session, e) ↦ kept session (rw long e)
      | inr (x, e) ↦ over x (rw long e)
    ]
  ]
  begun (opening id theirs) s =
      elim (resume-begun (new_session p id theirs s) (opening id theirs)) [
        | inl (session, e) ↦ kept session e
        | inr (x, e) ↦ over x e
      ]
