-- ===== src/Crypto/Peers/Talk.antt =====
-- Two users of crypto/session.rs and crypto/encryption.rs who have opened sessions with each other, over a network
-- that delivers what was sent in any order, again and again, or never.
pub mod Keys
pub mod Refused
use merabriar.Prelude.{ℕ, ◌<◌, ◌≤◌, ◌≡◌, Bool, true, false, List, [], ◌∷◌, In, length}
use merabriar.Rust.Text.{Bytes, Text}
use merabriar.Rust.Result.{ok}
use merabriar.Platform.{Platform, max_plaintext}
use merabriar.Crypto.State.{Crypto, PublicKeyBundle}
use merabriar.Crypto.Sessions.{init_session}
use merabriar.Crypto.Encryption.{encrypt_message, decrypt_message}

-- The two sides are the two truth values.
abbrev pub other : Bool → Bool
other true = false
other false = true

abbrev pub put : {A : Type 0} → Bool → A → (Bool → A) → Bool → A
put true a f true = a
put true a f false = f false
put false a f true = f true
put false a f false = a

-- The engines of the two, and what has been sent to each.
pub record Talk : Type 0 where
  pub who : Bool → Crypto
  pub mail : Bool → List Bytes

module _ {Cipher KeyPair : Type 0} (p : Platform Cipher KeyPair) (name : Bool → Text)
    (bundle : Bool → PublicKeyBundle) where
  -- Both sides have called `init_session`.
  abbrev pub began : (Bool → Crypto) → Talk
  began who = record {
    who = λ x. (init_session p (name (other x)) (bundle (other x)) (who x)).1;
    mail = λ x. [];
  }

  -- One call by one side, with at most `limit` messages sent to each.
  pub data Step (limit : ℕ) (t u : Talk) : Type 0 where
    writes :
        (x : Bool) (plaintext : Text) (nonce c : Bytes) (s : Crypto)
        → length nonce ≡ 12
        → length plaintext ≤ max_plaintext
        → length (t.mail (other x)) < limit
        → encrypt_message p (name (other x)) plaintext nonce (t.who x) ≡ (ok c, s)
        → u ≡ record { who = put x s t.who; mail = put (other x) (c ∷ t.mail (other x)) t.mail }
        → Step limit t u
    reads :
        (x : Bool) (c : Bytes)
        → In c (t.mail x)
        → u ≡ record {
          who = put x (decrypt_message p (name (other x)) c (t.who x)).1 t.who;
          mail = t.mail;
        }
        → Step limit t u
    opens :
        (x : Bool)
        → u ≡ record {
          who = put x (init_session p (name (other x)) (bundle (other x)) (t.who x)).1 t.who;
          mail = t.mail;
        }
        → Step limit t u

  pub data Reach (limit : ℕ) (t : Talk) : Talk → Type 0 where
    here : Reach limit t t
    next : {v u : Talk} → Reach limit t v → Step limit v u → Reach limit t u
