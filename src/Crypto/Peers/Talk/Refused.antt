-- ===== src/Crypto/Peers/Talk/Refused.antt =====
-- What becomes of the messages of Talk.
use merabriar.Prelude.{
  ◌⊎◌, inl, inr, Bool-cases, ltb, ℕ, suc, ◌+◌, ◌<◌, ◌≤◌, ◌≡◌, refl, sym, ap, subst, ◌∙◌, Bool, true,
  false, List, [], ◌∷◌, ◌++◌, In, All, All-at, length, arith,
}
use merabriar.Rust.Text.{Bytes, Text, text}
use merabriar.Rust.Result.{ok, err}
use merabriar.Rust.Words.{u32_mod}
use merabriar.Platform.{Platform, KdfLaws, AeadLaws, AeadRejects, AgreementLaws, max_plaintext}
use merabriar.Crypto.Session.{Session}
use merabriar.Crypto.Session.Derivation.{MayStep}
use merabriar.Crypto.State.{Crypto}
use merabriar.Crypto.Sessions.{init_session}
use merabriar.Crypto.Encryption.{encrypt_message, decrypt_message}
use merabriar.Crypto.Encryption.Success.{
  Holds, with_session, encrypt_message_lem, decrypt_message-other_key,
}
use merabriar.Crypto.Encryption.Errors.{encrypt_message-last_counter}
use merabriar.Crypto.Peers.Delivery.{with_session-Holds}
use merabriar.Crypto.Peers.Handshake.{IsReady, agreed, init_session_lem, zero-MayStep}
use merabriar.Crypto.Peers.Talk.Keys.{
  Users, secret, secret-other, length-prekey, place, place-u32, sending_key, IsSeparated,
}
use merabriar.Crypto.Peers.Talk.{
  other, put, Talk, began, Step, writes, reads, opens, Reach, here, next,
}

MayStep-cases :
    (checks : Bool) (n : ℕ) → n < u32_mod → MayStep checks n ⊎ ((checks ≡ true) × (n + 1 ≡ u32_mod))
MayStep-cases false n h = inl h
MayStep-cases true n h = elim (Bool-cases (ltb (n + 1) u32_mod)) [
  | inl room ↦ inl (ground arith)
  | inr last ↦ inr (refl, ground arith)
]

-- What holds of one side after a change of one side.
put-all :
    {A : Type 0} (P : Bool → A → Type 0) (x : Bool) (a : A) (f : Bool → A)
    → P x a
    → ((y : Bool) → P y (f y))
    → (y : Bool) → P y (put x a f y)
put-all P true a f h old true = h
put-all P true a f h old false = old false
put-all P false a f h old true = old true
put-all P false a f h old false = h

-- The same of a side and its outgoing mail.
put-both :
    {A B : Type 0} (P : Bool → A → B → Type 0) (x : Bool) (a : A) (b : B) (f : Bool → A)
    (g : Bool → B)
    → P x a b
    → ((y : Bool) → P y (f y) (g (other y)))
    → (y : Bool) → P y (put x a f y) (put (other x) b g (other y))
put-both P true a b f g h old true = h
put-both P true a b f g h old false = old false
put-both P false a b f g h old true = old true
put-both P false a b f g h old false = h

module _ {Cipher KeyPair : Type 0} {p : Platform Cipher KeyPair} (kdf : KdfLaws p)
    (aead : AeadLaws p) (rejects : AeadRejects p aead) (dh : AgreementLaws p)
    (users : Users p) where
  -- The session of a side that has sent `n` messages since it was opened, and received none.
  abbrev session_at : Bool → ℕ → Session
  session_at x n =
      record (agreed kdf (users.keys x) (users.name (other x)) (users.bundle (other x))) {
        send_chain_key = (place kdf (secret users x) n).0;
        send_counter = (place kdf (secret users x) n).1;
      }

  module _ (limit : ℕ) where
    record Sealed (x : Bool) (c : Bytes) : Type 0 where
      pub number : ℕ
      pub nonce : Bytes
      pub plaintext : Text
      pub early : number < limit
      pub length_nonce : length nonce ≡ 12
      pub form : c ≡ nonce ++ aead.box (sending_key kdf (secret users x) number) nonce plaintext

    record Standing (x : Bool) (s : Crypto) (sent : List Bytes) : Type 0 where
      pub ready : IsReady (users.keys x) s
      pub number : ℕ
      pub bounded : number ≤ length sent
      pub holds : Holds (users.name (other x)) (session_at x number) s

    record Inv (t : Talk) : Type 0 where
      pub standing : (x : Bool) → Standing x (t.who x) (t.mail (other x))
      pub mailed : (x : Bool) → All (Sealed x) (t.mail x)

    -- A message to one side is refused by it.
    refused :
        (x : Bool) (s : Crypto) (sent : List Bytes) (c : Bytes)
        → IsSeparated kdf limit (secret users x)
        → Standing x s sent
        → Sealed x c
        → decrypt_message p (users.name (other x)) c s
          ≡ (err (text "Decryption failed: " ++ rejects.rejection), s)
    refused x s sent c separated standing sealed = rw sealed.form (
        decrypt_message-other_key kdf aead rejects (users.name (other x)) sealed.plaintext
          (sending_key kdf (secret users x) sealed.number) sealed.nonce
          (session_at x standing.number) s standing.holds (zero-MayStep p.overflow_checks)
          sealed.length_nonce (separated sealed.number sealed.early))

    opened :
        (x : Bool) (s : Crypto) (sent : List Bytes)
        → IsReady (users.keys x) s
        → Standing x (init_session p (users.name (other x)) (users.bundle (other x)) s).1 sent
    opened x s sent ready =
        let id = users.name (other x) in
        let theirs = users.bundle (other x) in
        rw
          (init_session_lem kdf id (users.keys x) theirs s ready (length-prekey dh users (other x)))
          (record {
            ready = record {
              keys_readable = ready.keys_readable;
              has_keys = ready.has_keys;
              sessions_healthy = refl;
            };
            number = 0;
            bounded = omega arith;
            holds = with_session-Holds id (agreed kdf (users.keys x) id theirs) s refl;
          })

    -- What a call of `encrypt_message` that succeeds has sealed and stored.
    written :
        (x : Bool) (plaintext : Text) (nonce c : Bytes) (s s' : Crypto) (sent : List Bytes)
        (standing : Standing x s sent)
        → length nonce ≡ 12
        → length plaintext ≤ max_plaintext
        → encrypt_message p (users.name (other x)) plaintext nonce s ≡ (ok c, s')
        → (nonce ++ aead.box (sending_key kdf (secret users x) standing.number) nonce plaintext ≡ c)
          × (with_session (users.name (other x)) (session_at x (suc standing.number)) s ≡ s')
    written x plaintext nonce c s s' sent standing n12 fits h =
        let id = users.name (other x) in
        let n = standing.number in
        let session = session_at x n in
        elim (MayStep-cases p.overflow_checks session.send_counter
          (place-u32 kdf (secret users x) n)) [
            | inl step ↦
                let sealed =
                  encrypt_message_lem kdf aead id plaintext nonce session s standing.holds step n12
                    fits in
                (ground (arith, sealed, h), ap (λ r. r.1) (sym sealed ∙ h))
            | inr (checks, last) ↦ absurd (
                ground (
                  arith,
                  encrypt_message-last_counter kdf aead id plaintext nonce session s standing.holds
                      last n12 fits,
                  h,
                ))
          ]

    writing :
        (x : Bool) (plaintext : Text) (nonce c : Bytes) (s s' : Crypto) (sent : List Bytes)
        → Standing x s sent
        → length nonce ≡ 12
        → length plaintext ≤ max_plaintext
        → length sent < limit
        → encrypt_message p (users.name (other x)) plaintext nonce s ≡ (ok c, s')
        → Standing x s' (c ∷ sent) × Sealed (other x) c
    writing x plaintext nonce c s s' sent standing n12 fits room h =
        let id = users.name (other x) in
        let n = standing.number in
        let (sealed, stored) = written x plaintext nonce c s s' sent standing n12 fits h in
        (
          subst (λ r. Standing x r (c ∷ sent)) stored
              (record {
                ready = record {
                  keys_readable = standing.ready.keys_readable;
                  has_keys = standing.ready.has_keys;
                  sessions_healthy = refl;
                };
                number = suc n;
                bounded = omega (arith, standing.bounded);
                holds = with_session-Holds id (session_at x (suc n)) s refl;
              }),
          record {
            number = n;
            nonce = nonce;
            plaintext = plaintext;
            early = omega (arith, standing.bounded);
            length_nonce = n12;
            form = rw (secret-other dh users x) (sym sealed);
          },
        )

    IsSeparated-both :
        IsSeparated kdf limit (secret users true)
        → (x : Bool) → IsSeparated kdf limit (secret users x)
    IsSeparated-both h true = h
    IsSeparated-both h false = subst (IsSeparated kdf limit) (sym (secret-other dh users true)) h

    module _ (separated : IsSeparated kdf limit (secret users true)) where
      Step-Inv : {t u : Talk} → Step p users.name users.bundle limit t u → Inv t → Inv u
      Step-Inv {t} (writes x plaintext nonce c s n12 fits room h e) inv =
          let (standing, sealed) =
            writing x plaintext nonce c (t.who x) s (t.mail (other x)) (inv.standing x) n12 fits
              room h in
          rw e (record {
            standing =
                put-both Standing x s (c ∷ t.mail (other x)) t.who t.mail standing inv.standing;
            mailed =
                put-all (λ y. All (Sealed y)) (other x) (c ∷ t.mail (other x)) t.mail
                  (sealed, inv.mailed (other x)) inv.mailed;
          })
      Step-Inv {t} (reads x c arrived e) inv =
          let sealed = All-at (Sealed x) (t.mail x) (inv.mailed x) c arrived in
          let same =
            refused x (t.who x) (t.mail (other x)) c (IsSeparated-both separated x) (inv.standing x)
              sealed in
          rw (e, same)
            (record {
              standing =
                  put-all (λ y s. Standing y s (t.mail (other y))) x (t.who x) t.who
                    (inv.standing x) inv.standing;
              mailed = inv.mailed;
            })
      Step-Inv {t} (opens x e) inv = rw e (record {
        standing =
            put-all (λ y s. Standing y s (t.mail (other y))) x _ t.who
              (opened x (t.who x) (t.mail (other x)) (inv.standing x).ready) inv.standing;
        mailed = inv.mailed;
      })

      Reach-Inv : {t u : Talk} → Reach p users.name users.bundle limit t u → Inv t → Inv u
      Reach-Inv here inv = inv
      Reach-Inv (next r st) inv = Step-Inv st (Reach-Inv r inv)

    -- Two users have identity keys and each other's published prekeys, and both have opened a session with the other.
    -- From then on each may encrypt (with 12-byte nonces, plaintexts within the limit of AES-GCM, and at most
    -- `limit` messages to each), decrypt what was sent to it, in any order and again, and open its session anew. If
    -- HKDF separates the first `limit` keys of the sending chain from the first of the receiving chain, then at
    -- every moment everything that was ever sent to a user is refused by it, and refusing it changes nothing.
    pub nothing_arrives :
        (who : Bool → Crypto) (t : Talk) (x : Bool) (c : Bytes)
        → ((y : Bool) → IsReady (users.keys y) (who y))
        → IsSeparated kdf limit (secret users true)
        → Reach p users.name users.bundle limit (began p users.name users.bundle who) t
        → In c (t.mail x)
        → decrypt_message p (users.name (other x)) c (t.who x)
          ≡ (err (text "Decryption failed: " ++ rejects.rejection), t.who x)
    nothing_arrives who t x c ready separated reach arrived =
        let first : Inv (began p users.name users.bundle who) = record {
          standing = λ y. opened y (who y) [] (ready y);
          mailed = λ y. tt;
        } in
        let inv = Reach-Inv separated reach first in
        refused x (t.who x) (t.mail (other x)) c (IsSeparated-both separated x) (inv.standing x)
          (All-at (Sealed x) (t.mail x) (inv.mailed x) c arrived)
