-- ===== src/Crypto/Integration/Passes.antt =====
-- The tests of Suite in a row.
use merabriar.Prelude.{
  Option-cases, inl, inr, ◌≡◌, refl, sym, subst, ap, ◌∙◌, false, none, if◌then◌else◌, List, [], ◌∷◌,
  ◌++◌, All, arith,
}
use merabriar.Rust.Text.{Bytes, Text, text}
use merabriar.Rust.Result.{ok, err}
use merabriar.Rust.HashMap.{get-insert_self}
use merabriar.Platform.{Platform, KdfLaws, AeadLaws, AgreementLaws, SigningLaws}
use merabriar.Crypto.State.{Crypto}
use merabriar.Crypto.Sessions.{has_session}
use merabriar.Crypto.Encryption.{encrypt_message}
use merabriar.Rust.HashMap
use merabriar.Crypto.Encryption.Errors
use merabriar.Rust.Exec.{Exec}
use merabriar.Crypto.Integration.{refuses, test_encrypt_without_session_fails}
use merabriar.Crypto.Integration.Suite.{
  Test, valid_bundle, bundle_published, multiple_sessions, empty_plaintext, invalid_ciphertext,
  ciphertext_format, session_check, ciphertext_produced, full_lifecycle, no_session, body,
  run_tests, IsRunnable, IsClean, Passes,
}
use merabriar.Rust.Lock.{poison_text}
use merabriar.Crypto.Integration.Lifecycle.{
  session_check-Passes, ciphertext_produced-Passes, full_lifecycle-Passes,
}
use merabriar.Crypto.Integration.Single.{
  valid_bundle-Passes, bundle_published-Passes, multiple_sessions-Passes, empty_plaintext-Passes,
  invalid_ciphertext-Passes, ciphertext_format-Passes,
}

refuses_lem :
    {A : Type 0} (f : Exec Crypto A) (s : Crypto) (e : Text)
    → f s ≡ (err e, s)
    → refuses f s ≡ (ok tt, s)
refuses_lem f s e h = rw h

module _ {Cipher KeyPair : Type 0} {p : Platform Cipher KeyPair} (kdf : KdfLaws p)
    (aead : AeadLaws p) (dh : AgreementLaws p) (signing : SigningLaws p) where
  absent :
      (id : Text) (s : Crypto)
      → s.sessions.poisoned ≡ false
      → has_session id s ≡ false
      → HashMap.get id s.sessions.value ≡ none
  unfolding has_session
  absent id s healthy h = elim (Option-cases (HashMap.get id s.sessions.value)) [
    | inl e ↦ e
    | inr (session, e) ↦ absurd (ground arith)
  ]

  no_session-Passes : (nonce : Bytes) (s : Crypto) → IsClean s → Passes p (no_session nonce) s
  unfolding test_encrypt_without_session_fails
  no_session-Passes nonce s clean =
      let id = text "nonexistent_user_12345" in
      let missing = absent id s clean.sessions_healthy clean.no_stranger in
      let refused : encrypt_message p id (text "test") nonce s
          ≡ (err (text "No session for " ++ id), s) =
        (Errors.no_session p id (text "test") nonce [] s missing).0
        ∙ ap (λ b. if b then (err poison_text, s) else (err (text "No session for " ++ id), s))
            clean.sessions_healthy in
      let done : body p (no_session nonce) s ≡ (ok tt, s) =
        refuses_lem (encrypt_message p id (text "test") nonce) s _ refused in
      (ap (λ r. r.0) done, subst (λ r. IsClean r.1) (sym done) clean)

  passes : (t : Test) (s : Crypto) → IsClean s → IsRunnable p t → Passes p t s
  passes (valid_bundle d) s clean drawn = valid_bundle-Passes kdf aead dh signing d drawn s clean
  passes (bundle_published d) s clean drawn =
      bundle_published-Passes kdf aead dh signing d drawn s clean
  passes (multiple_sessions d) s clean drawn =
      multiple_sessions-Passes kdf aead dh signing d drawn s clean
  passes (empty_plaintext d) s clean drawn =
      empty_plaintext-Passes kdf aead dh signing d drawn s clean
  passes (invalid_ciphertext d) s clean drawn =
      invalid_ciphertext-Passes kdf aead dh signing d drawn s clean
  passes (ciphertext_format d) s clean drawn =
      ciphertext_format-Passes kdf aead dh signing d drawn s clean
  passes (session_check d d') s clean (drawn, drawn') =
      session_check-Passes kdf aead dh signing d d' drawn drawn' s clean
  passes (ciphertext_produced d) s clean drawn =
      ciphertext_produced-Passes kdf aead dh signing d drawn s clean
  passes (full_lifecycle d) s clean drawn =
      full_lifecycle-Passes kdf aead dh signing d drawn s clean
  passes (no_session nonce) s clean drawn = no_session-Passes nonce s clean

  -- Ten of the integration tests, one after another on one state, in any order and any number of times, all pass:
  -- if no lock is poisoned and there is no session yet under the names that they take for unknown, and if the
  -- random generators give documents that parse and nonces of 12 bytes.
  pub suite_passes :
      (ts : List Test) (s : Crypto)
      → IsClean s
      → All (IsRunnable p) ts
      → (run_tests p ts s).0 ≡ ok tt
  suite_passes [] s clean runnable = refl
  suite_passes (t ∷ ts) s clean (one, rest) =
      let (passed, cleaned) = passes t s clean one in
      rw passed (suite_passes ts (body p t s).1 cleaned rest)
